-- ===== src/Application/Menu/Options.antt =====
-- What each option of the menu keeps at a host.
use network_layer_full.Base.{
  ℕ, ◌≡◌, inl, inr, refl, sym, ap, ◌∙◌, Bool-cases, Option, none, some, List, arith, All, All-set,
  All-get_elem?, length, length-set, set, get_elem?,
}
use network_layer_full.Base.Int.{ℤ, negsuc}
use network_layer_full.Application.Menu.{
  HostState, Choice, open_point, close_point, connect, disconnect, send_text, receive_text,
  download_file, upload_file, show_routes, garble, disable, enable, debug, leave, invalid, Found,
  Result, shown, downloads, uploads, leaves, waits, crash, with_points, after_call, after_void,
  at_point, typed_buffer, overflows, send_from, receive_at, open_slot, close_slot, config_garbler,
  both_calls, choose,
}
use network_layer_full.Application.Menu.Steps.{IsToOthers}
use network_layer_full.Garbler.Laws.{IsValid, set_garbler-IsValid}
use network_layer_full.Net.Routes.{Routing, disable_route, enable_route, forget, attach}
use network_layer_full.Net.Routes.Laws.{IsRouted, Step-IsRouted, when_host, disabled, enabled}
use network_layer_full.Topology.{Links}
use network_layer_full.Topology.Laws.{IsSymmetric, config_link-IsSymmetric}
use network_layer_full.Transport.Kept.{
  IsPoint, Leaves, connect_point-Leaves, close_conn-Leaves, send_point-Leaves,
}
use network_layer_full.Transport.Point.{
  ServicePoint, Call, done, blocked, fault, fresh, getfreeslot, alloc_at, alloc_service_point,
  dalloc_service_point,
}
use network_layer_full.Transport.Segs.{recv_seg}
use network_layer_full.Transport.Sender.{send_point}

abbrev pub IsSlot : Option ServicePoint → Type 0
IsSlot none = Unit
IsSlot (some p) = IsPoint p

-- Sixteen slots with points whose fields are in range, a consistent route table of this host, links
-- with one MTU for both directions, and percentages that the garbler can use.
pub record IsHost (num : ℕ) (h : HostState) : Type 0 where
  pub sized : length h.points ≡ 16
  pub points_in : All IsSlot h.points
  pub numbered : h.net.routing.num ≡ num
  pub routed : IsRouted h.net.routing
  pub symmetric : IsSymmetric h.link.links
  pub percents : IsValid h.link.garbler

-- What an option leaves, if the menu goes on.
abbrev pub Good : ℕ → Result → Type 0
Good num (shown value bytes h out) = IsHost num h
Good num (downloads sp file_name) = Unit
Good num (uploads sp) = Unit
Good num leaves = Unit
Good num waits = Unit
Good num crash = Unit

pub put-IsHost :
    (num sp : ℕ) (h : HostState) (slot : Option ServicePoint)
    → IsHost num h
    → IsSlot slot
    → IsHost num (with_points h (set h.points sp slot))
put-IsHost num sp h slot v vs = record {
  sized = length-set h.points sp slot ∙ v.sized;
  points_in = All-set IsSlot h.points sp slot v.points_in vs;
  numbered = v.numbered;
  routed = v.routed;
  symmetric = v.symmetric;
  percents = v.percents;
}

at_point-Good :
    (num : ℕ) (h : HostState) (call : ServicePoint → Result) (slot : Option (Option ServicePoint))
    → IsHost num h
    → ((p : ServicePoint) → slot ≡ some (some p) → Good num (call p))
    → Good num (at_point h call slot)
unfolding at_point
at_point-Good num h call none v k = tt
at_point-Good num h call (some none) v k = v
at_point-Good num h call (some (some p)) v k = k p refl

pub get_elem?-IsPoint :
    (num sp : ℕ) (h : HostState) (p : ServicePoint)
    → IsHost num h
    → get_elem? h.points sp ≡ some (some p)
    → IsPoint p
get_elem?-IsPoint num sp h p v e = All-get_elem? IsSlot h.points sp v.points_in e

after_call-Good :
    (num sp : ℕ) (h : HostState) (c : Call ℕ)
    → IsHost num h
    → Leaves c
    → Good num (after_call h sp c)
unfolding after_call
after_call-Good num sp h blocked v k = tt
after_call-Good num sp h fault v k = tt
after_call-Good num sp h (done value p out) v k = put-IsHost num sp h (some p) v k

after_void-Good :
    (num sp : ℕ) (h : HostState) (c : Call (Unit {0}))
    → IsHost num h
    → Leaves c
    → Good num (after_void h sp c)
unfolding after_void
after_void-Good num sp h blocked v k = tt
after_void-Good num sp h fault v k = tt
after_void-Good num sp h (done tt p out) v k = put-IsHost num sp h (some p) v k

open_slot-Good :
    (num : ℕ) (h : HostState) (raw : ServicePoint) (slot : Option ℕ)
    → IsHost num h
    → Good num (open_slot h (alloc_at raw h.points slot))
unfolding open_slot alloc_at fresh
open_slot-Good num h raw none v = v
open_slot-Good num h raw (some slot) v =
    put-IsHost num slot h (some (fresh raw)) v (record { state = omega arith; numbers = tt })

both_calls-Good :
    (num : ℕ) (h : HostState) (routing : Option Routing) (links : Option Links)
    → IsHost num h
    → ((t : Routing) → routing ≡ some t → IsRouted t × (t.num ≡ num))
    → ((l : Links) → links ≡ some l → IsSymmetric l)
    → Good num (both_calls h routing links)
unfolding both_calls
both_calls-Good num h none links v kr kl = tt
both_calls-Good num h (some routing) none v kr kl = tt
both_calls-Good num h (some routing) (some links) v kr kl =
    let r = kr routing refl in
    record {
      sized = v.sized;
      points_in = v.points_in;
      numbered = r.1;
      routed = r.0;
      symmetric = kl links refl;
      percents = v.percents;
    }

disable_route-num : (s t : Routing) (host : ℕ) → disable_route s host ≡ some t → t.num ≡ s.num
unfolding disable_route forget
disable_route-num s t host e =
    sym (ap (λ (r : Routing). r.num) (when_host host (forget s host) e).1)

enable_route-num : (s t : Routing) (host : ℕ) → enable_route s host ≡ some t → t.num ≡ s.num
unfolding enable_route attach
enable_route-num s t host e = sym (ap (λ (r : Routing). r.num) (when_host host (attach s host) e).1)

pub send_from-Good :
    (num : ℕ) (h : HostState) (sp size : ℕ) (buf : List ℕ)
    → IsHost num h
    → Good num (send_from h sp size buf)
unfolding send_from
send_from-Good num h sp size buf v = at_point-Good num h _ (get_elem? h.points sp) v (λ p e.
    after_call-Good num sp h (send_point p buf size) v
      (send_point-Leaves p buf size (get_elem?-IsPoint num sp h p v e)))

pub receive_at-Good :
    (num : ℕ) (h : HostState) (sp size : ℕ)
    → IsHost num h
    → Good num (at_point h (receive_at h sp size) (get_elem? h.points sp))
unfolding receive_at
receive_at-Good num h sp size v =
    at_point-Good num h (receive_at h sp size) (get_elem? h.points sp) v (λ p e.
      let vp = get_elem?-IsPoint num sp h p v e in
      put-IsHost num sp h (some (record p { segs = (recv_seg p.segs size).1 })) v
        (record { state = vp.state; numbers = vp.numbers }))

config_garbler-Good :
    (num : ℕ) (h : HostState) (l c d : ℤ) → IsHost num h → Good num (config_garbler h l c d)
unfolding config_garbler
config_garbler-Good num h l c d v = record {
  sized = v.sized;
  points_in = v.points_in;
  numbered = v.numbered;
  routed = v.routed;
  symmetric = v.symmetric;
  percents = (set_garbler-IsValid h.link.garbler l c d v.percents).0;
}

pub choose-Good :
    (f : Found) (num : ℕ) (h : HostState) (c : Choice)
    → IsHost num h
    → IsToOthers num c
    → Good num (choose f num h c)
unfolding choose close_slot alloc_service_point dalloc_service_point
choose-Good f num h open_point v o = open_slot-Good num h f.raw_point (getfreeslot h.points 0) v
choose-Good f num h (close_point sp) v o =
    at_point-Good num h _ (get_elem? h.points sp) v (λ p e. put-IsHost num sp h none v tt)
choose-Good f num h (connect sp dest dest_ips tam_window) v o =
    at_point-Good num h _ (get_elem? h.points sp) v (λ p e. after_call-Good num sp h _ v (
      connect_point-Leaves p sp dest dest_ips tam_window f.random f.raw_segment
        (get_elem?-IsPoint num sp h p v e)))
choose-Good f num h (disconnect sp) v o = at_point-Good num h _ (get_elem? h.points sp) v (λ p e.
    after_void-Good num sp h _ v
      (close_conn-Leaves p sp f.raw_segment (get_elem?-IsPoint num sp h p v e)))
choose-Good f num h (send_text sp tam_buffer typed) v o =
    elim (Bool-cases (overflows typed tam_buffer)) [
      | inl over ↦ rw over tt
      | inr fits ↦ rw fits (send_from-Good num h sp tam_buffer (typed_buffer f.raw_buffer typed) v)
    ]
choose-Good f num h (receive_text sp tam_buffer) v o = receive_at-Good num h sp tam_buffer v
choose-Good f num h (download_file sp file_name) v o = tt
choose-Good f num h (upload_file sp) v o = tt
choose-Good f num h show_routes v o = v
choose-Good f num h (garble l c d) v o = config_garbler-Good num h l c d v
choose-Good f num h (disable remote_host) v o =
    both_calls-Good num h _ _ v
      (λ t e. (
        Step-IsRouted (disabled remote_host (rw v.numbered o) e) v.routed,
        disable_route-num h.net.routing t remote_host e ∙ v.numbered,
      ))
      (λ l e. config_link-IsSymmetric h.link.links l num remote_host (negsuc 0) v.symmetric e)
choose-Good f num h (enable remote_host mtu) v o =
    both_calls-Good num h _ _ v
      (λ t e. (
        Step-IsRouted (enabled remote_host (rw v.numbered o) e) v.routed,
        enable_route-num h.net.routing t remote_host e ∙ v.numbered,
      ))
      (λ l e. config_link-IsSymmetric h.link.links l num remote_host mtu v.symmetric e)
choose-Good f num h debug v o = v
choose-Good f num h leave v o = tt
choose-Good f num h invalid v o = v
