-- ===== src/Config/HostLines.antt =====
-- The lines of the hosts in a topology file, written as in config/topology.cnf, and what each is
-- read as.
use network_layer_full.Base.{
  ℕ, suc, ◌+◌, ◌-◌, ◌^◌, ◌≤◌, ◌<◌, ◌≡◌, ◌≢◌, refl, ap, subst, true, Option, some, List, [], ◌∷◌,
  ◌++◌, arith, leb, le→leb, All, length, u16,
}
use network_layer_full.Topology.{Host}
use network_layer_full.Config.{
  Line, is_digit, skip_to_digit, copy_until, chartoint, strtol_of, processhostline,
}
use network_layer_full.Config.Decimal.{
  decimal, IsDigit, NoDigit, is_digit-IsDigit, decimal-Writes, strtol_of-Writes,
}
use network_layer_full.Config.LinkLines.{copy_until-append, not_stop}

-- A host: its address as text, the first digit apart, and as `inet_pton` reads it.
pub record HostEntry : Type 0 where
  pub num : ℕ
  pub ip_digit : ℕ
  pub ip_others : List ℕ
  pub ip_addr : ℕ
  pub port : ℕ
  pub junk : List ℕ

-- "   1: IP = 127.0.0.1, Porta = 5002;"
unfoldable pub host_line : HostEntry → Line
host_line h = record {
  text =
      32
      ∷ 32
      ∷ 32
      ∷ (48 + h.num)
      ∷ 58
      ∷ 32
      ∷ 73
      ∷ 80
      ∷ 32
      ∷ 61
      ∷ 32
      ∷ h.ip_digit
      ∷ (h.ip_others
          ++ (44
              ∷ 32
              ∷ 80
              ∷ 111
              ∷ 114
              ∷ 116
              ∷ 97
              ∷ 32
              ∷ 61
              ∷ 32
              ∷ (decimal 4 h.port ++ (59 ∷ 10 ∷ []))));
  junk = h.junk;
}

pub record IsHost (inet_pton : List ℕ → Option ℕ) (h : HostEntry) : Type 0 where
  pub num_in : h.num ≤ 9
  pub ip_start : IsDigit h.ip_digit
  pub ip_short : length h.ip_others ≤ 14
  pub ip_plain : All (λ (c : ℕ). c ≢ 44) h.ip_others
  pub ip_known : inet_pton (h.ip_digit ∷ h.ip_others) ≡ some h.ip_addr
  pub port_in : h.port < 2 ^ 16
  pub stops : NoDigit h.junk

abbrev pub host_of : HostEntry → Host
host_of h = record { num = h.num; port = h.port; ip_addr = h.ip_addr }

abbrev host_with : ℕ → ℕ → ℕ → Host
host_with num ip_addr port = record { num = num; port = port; ip_addr = ip_addr }

read_host :
    (inet_pton : List ℕ → Option ℕ) (num ip_digit ip_addr digit port : ℕ)
    (ip_others others junk : List ℕ) (ret : Host)
    → num ≤ 9
    → is_digit ip_digit ≡ true
    → copy_until 44 (
        ip_others
        ++ (44
            ∷ 32
            ∷ 80
            ∷ 111
            ∷ 114
            ∷ 116
            ∷ 97
            ∷ 32
            ∷ 61
            ∷ 32
            ∷ ((digit ∷ others) ++ (59 ∷ 10 ∷ []))))
      ≡ some (
        ip_others,
        44 ∷ 32 ∷ 80 ∷ 111 ∷ 114 ∷ 116 ∷ 97 ∷ 32 ∷ 61 ∷ 32 ∷ ((digit ∷ others) ++ (59 ∷ 10 ∷ [])),
      )
    → length ip_others ≤ 14
    → inet_pton (ip_digit ∷ ip_others) ≡ some ip_addr
    → is_digit digit ≡ true
    → copy_until 59 (others ++ (59 ∷ 10 ∷ [])) ≡ some (others, 59 ∷ 10 ∷ [])
    → strtol_of 6 (digit ∷ others) junk ≡ some port
    → port < 2 ^ 16
    → processhostline inet_pton
        (record {
          text =
              32
              ∷ 32
              ∷ 32
              ∷ (48 + num)
              ∷ 58
              ∷ 32
              ∷ 73
              ∷ 80
              ∷ 32
              ∷ 61
              ∷ 32
              ∷ ip_digit
              ∷ (ip_others
                  ++ (44
                      ∷ 32
                      ∷ 80
                      ∷ 111
                      ∷ 114
                      ∷ 116
                      ∷ 97
                      ∷ 32
                      ∷ 61
                      ∷ 32
                      ∷ ((digit ∷ others) ++ (59 ∷ 10 ∷ []))));
          junk = junk;
        })
        ret
      ≡ some (record { num = num; port = port; ip_addr = ip_addr })
unfolding processhostline skip_to_digit chartoint
read_host inet_pton num ip_digit ip_addr digit port ip_others others junk ret num_in d2 copied_ip
      short_ip known d3 copied value small =
    let d1 : is_digit (48 + num) ≡ true = ground arith in
    let c1 : 48 + num - 48 ≡ num = omega arith in
    let fits_ip : leb (suc (length ip_others)) 15 ≡ true =
      le→leb (suc (length ip_others)) 15 (omega arith) in
    let same : u16 port ≡ port = omega arith in
    rw (d1, d2, copied_ip, fits_ip, d3, copied, value, known, c1)
      (ap (λ (p : ℕ). some (host_with num ip_addr p)) same)

pub processhostline-host_line :
    (inet_pton : List ℕ → Option ℕ) (h : HostEntry) (ret : Host)
    → IsHost inet_pton h
    → processhostline inet_pton (host_line h) ret ≡ some (host_of h)
unfolding host_line
processhostline-host_line inet_pton h ret v =
    let w = decimal-Writes 4 h.port (omega (arith, v.port_in)) in
    let all : All IsDigit (w.first ∷ w.others) = subst (All IsDigit) w.shape w.all in
    let value : strtol_of 6 (w.first ∷ w.others) h.junk ≡ some h.port =
      subst (λ cs. strtol_of 6 cs h.junk ≡ some h.port) w.shape
        (strtol_of-Writes h.port 5 6 (decimal 4 h.port) h.junk w v.stops (omega arith)
          (omega (arith, v.port_in))) in
    rw w.shape (
      read_host inet_pton h.num h.ip_digit h.ip_addr w.first h.port h.ip_others w.others h.junk ret
        v.num_in (is_digit-IsDigit h.ip_digit v.ip_start)
        (copy_until-append 44 h.ip_others
          (32 ∷ 80 ∷ 111 ∷ 114 ∷ 116 ∷ 97 ∷ 32 ∷ 61 ∷ 32 ∷ ((w.first ∷ w.others) ++ (59 ∷ 10 ∷ [])))
          v.ip_plain)
        v.ip_short v.ip_known (is_digit-IsDigit w.first all.0)
        (copy_until-append 59 w.others (10 ∷ []) (not_stop 59 w.others refl all.1)) value v.port_in)
