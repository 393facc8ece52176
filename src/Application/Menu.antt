-- ===== src/Application/Menu.antt =====
-- The menu of application_layer/application_layer.c, `application_layer_init`, on the state of a whole
-- host. What the user types is an argument, already read by `scanf` into variables of its type;
-- what is printed is left out.
pub mod Steps
pub mod Options
pub mod Invariant
pub mod Start
pub mod Full
use network_layer_full.Base.{
  ℕ, suc, ◌+◌, ◌-◌, ◌≤◌, Bool, true, false, Option, none, some, List, [], ◌∷◌, ◌++◌, if◌then◌else◌,
  ltb, length, set, get_elem?, drop, u32,
}
use network_layer_full.Base.Int.{ℤ, pos, negsuc}
use network_layer_full.Garbler.{Garbler, set_garbler}
use network_layer_full.Link.Send.{LinkState}
use network_layer_full.Net.Routes.{Routing, disable_route, enable_route}
use network_layer_full.Net.Sending.{NetState}
use network_layer_full.Topology.{Links, config_link}
use network_layer_full.Transport.Connect.{connect_point, close_conn}
use network_layer_full.Transport.Point.{
  ServicePoint, Points, Output, Call, done, blocked, fault, alloc_service_point,
  dalloc_service_point,
}
use network_layer_full.Transport.Segment.{Segment}
use network_layer_full.Transport.Segs.{recv_seg}
use network_layer_full.Transport.Sender.{send_point}

-- The globals of the layers.
pub record HostState : Type 0 where
  pub points : Points
  pub net : NetState
  pub link : LinkState

-- The options 1 to 14 with what is asked for, and any other number.
pub data Choice : Type 0 where
  open_point : Choice
  close_point : (sp : ℕ) → Choice
  connect : (sp dest dest_ips tam_window : ℕ) → Choice
  disconnect : (sp : ℕ) → Choice
  send_text : (sp tam_buffer : ℕ) (typed : List ℕ) → Choice
  receive_text : (sp tam_buffer : ℕ) → Choice
  download_file : (sp : ℕ) (file_name : List ℕ) → Choice
  upload_file : (sp : ℕ) → Choice
  show_routes : Choice
  garble : (l c d : ℤ) → Choice
  disable : (remote_host : ℕ) → Choice
  enable : (remote_host : ℕ) (mtu : ℤ) → Choice
  debug leave invalid : Choice

-- What the calls find: the result of `rand`, and memory that is not initialised.
pub record Found : Type 0 where
  pub random : ℕ
  pub raw_segment : Segment
  pub raw_point : ServicePoint
  pub raw_buffer : List ℕ

-- What an option ends with: the value that is printed, what was received, the state and what was
-- handed on; a transfer that begins; the end of the program; a call that waits; or an access to
-- memory that the program does not own.
pub data Result : Type 0 where
  shown : ℕ → List ℕ → HostState → List Output → Result
  downloads : ℕ → List ℕ → Result
  uploads : ℕ → Result
  leaves waits crash : Result

abbrev pub with_points : HostState → Points → HostState
with_points h points = record h { points = points }

-- `service_points[sp]` after a call.
unfoldable pub after_call : HostState → ℕ → Call ℕ → Result
after_call h sp blocked = waits
after_call h sp fault = crash
after_call h sp (done value p out) = shown value [] (with_points h (set h.points sp (some p))) out

unfoldable pub after_void : HostState → ℕ → Call (Unit {0}) → Result
after_void h sp blocked = waits
after_void h sp fault = crash
after_void h sp (done tt p out) = shown 0 [] (with_points h (set h.points sp (some p))) out

-- A call for the point `sp`: an index out of the table, a free slot, a point.
unfoldable pub at_point :
    HostState → (ServicePoint → Result) → Option (Option ServicePoint) → Result
at_point h call none = crash
at_point h call (some none) = shown 0 [] h []
at_point h call (some (some p)) = call p

-- The buffer of the message: what was typed and a NUL over the memory of `malloc`. Without
-- a character `scanf` stores nothing.
unfoldable pub typed_buffer : List ℕ → List ℕ → List ℕ
typed_buffer raw [] = raw
typed_buffer raw (b ∷ bs) = (b ∷ bs) ++ (0 ∷ drop (suc (length (b ∷ bs))) raw)

-- `scanf` writes the message and a NUL to a buffer of `tam_buffer` bytes.
abbrev pub overflows : List ℕ → ℕ → Bool
overflows [] tam_buffer = false
overflows (b ∷ bs) tam_buffer = ltb tam_buffer (suc (length (b ∷ bs)))

unfoldable pub send_from : HostState → ℕ → ℕ → List ℕ → Result
unfolding send_point after_call at_point
send_from h sp tam_buffer str =
    at_point h (λ p. after_call h sp (send_point p str tam_buffer)) (get_elem? h.points sp)

-- The value is the number of bytes received.
unfoldable pub receive_at : HostState → ℕ → ℕ → ServicePoint → Result
unfolding recv_seg
receive_at h sp tam_buffer p =
    let (bytes, rest) = recv_seg p.segs tam_buffer in
    shown (u32 (length bytes)) bytes
      (with_points h (set h.points sp (some (record p { segs = rest })))) []

unfoldable pub open_slot : HostState → ℕ × Points → Result
open_slot h (ips, points) = shown ips [] (with_points h points) []

unfoldable pub close_slot : HostState → ℕ → Result
unfolding at_point dalloc_service_point
close_slot h sp =
    at_point h (λ p. shown 0 [] (with_points h (dalloc_service_point h.points sp)) [])
      (get_elem? h.points sp)

abbrev pub with_link : HostState → LinkState → HostState
with_link h link = record h { link = link }

-- `config_garbler`
unfoldable pub config_garbler : HostState → ℤ → ℤ → ℤ → Result
unfolding set_garbler
config_garbler h l c d =
    shown 0 [] (with_link h (record (h.link) { garbler = (set_garbler h.link.garbler l c d).0 })) []

-- The two calls of the options 11 and 12; `none` is an access outside of an array.
unfoldable pub both_calls : HostState → Option Routing → Option Links → Result
both_calls h none links = crash
both_calls h (some routing) none = crash
both_calls h (some routing) (some links) =
    shown 0 []
      (record h {
        net = record (h.net) { routing = routing };
        link = record (h.link) { links = links };
      })
      []

-- One round of the loop, on the host `num_host`.
unfoldable pub choose : Found → ℕ → HostState → Choice → Result
unfolding open_slot close_slot after_void send_from receive_at config_garbler both_calls
    typed_buffer
choose f num_host h open_point = open_slot h (alloc_service_point f.raw_point h.points)
choose f num_host h (close_point sp) = close_slot h sp
choose f num_host h (connect sp dest dest_ips tam_window) =
    at_point h
      (λ p. after_call h sp (connect_point p sp dest dest_ips tam_window f.random f.raw_segment))
      (get_elem? h.points sp)
choose f num_host h (disconnect sp) =
    at_point h (λ p. after_void h sp (close_conn p sp f.raw_segment)) (get_elem? h.points sp)
choose f num_host h (send_text sp tam_buffer typed) =
    if overflows typed tam_buffer
    then crash
    else send_from h sp tam_buffer (typed_buffer f.raw_buffer typed)
choose f num_host h (receive_text sp tam_buffer) =
    at_point h (receive_at h sp tam_buffer) (get_elem? h.points sp)
choose f num_host h (download_file sp file_name) = downloads sp file_name
choose f num_host h (upload_file sp) = uploads sp
choose f num_host h show_routes = shown 0 [] h []
choose f num_host h (garble l c d) = config_garbler h l c d
choose f num_host h (disable remote_host) =
    both_calls h (disable_route h.net.routing remote_host)
      (config_link h.link.links num_host remote_host (negsuc 0))
choose f num_host h (enable remote_host mtu) =
    both_calls h (enable_route h.net.routing remote_host)
      (config_link h.link.links num_host remote_host mtu)
choose f num_host h debug = shown 0 [] h []
choose f num_host h leave = leaves
choose f num_host h invalid = shown 0 [] h []
