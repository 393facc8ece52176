-- ===== src/Config/LinkLines.antt =====
-- The lines of the links in a topology file, written as in config/topology.cnf, and what each is
-- read as.
use network_layer_full.Base.{
  ℕ, ◌+◌, ◌-◌, ◌^◌, ◌≤◌, ◌<◌, ◌≡◌, ◌≢◌, refl, subst, true, some, List, [], ◌∷◌, ◌++◌, arith, leb,
  ◌&&◌, ne→not_==, ==_refl, All,
}
use network_layer_full.Base.Int.{pos}
use network_layer_full.Topology.{Links, update}
use network_layer_full.Config.{
  Line, is_digit, skip_to_digit, copy_until, chartoint, strtol_of, to_int, store_link,
  processlinkline,
}
use network_layer_full.Config.Decimal.{
  decimal, IsDigit, NoDigit, is_digit-IsDigit, decimal-Writes, strtol_of-Writes,
}

pub copy_until-append :
    (stop : ℕ) (cs rest : List ℕ)
    → All (λ (c : ℕ). c ≢ stop) cs
    → copy_until stop (cs ++ (stop ∷ rest)) ≡ some (cs, stop ∷ rest)
unfolding copy_until
copy_until-append stop [] rest h = rw (==_refl stop)
copy_until-append stop (c ∷ cs) rest h =
    rw (ne→not_== c stop h.0, copy_until-append stop cs rest h.1)

pub not_stop : (stop : ℕ) (cs : List ℕ) → stop ≡ 59 → All IsDigit cs → All (λ (c : ℕ). c ≢ stop) cs
not_stop stop [] e h = tt
not_stop stop (c ∷ cs) e h = (λ same. absurd (omega arith), not_stop stop cs e h.1)

-- A link, and what the stack holds when its line is read.
pub record LinkEntry : Type 0 where
  pub first : ℕ
  pub second : ℕ
  pub mtu : ℕ
  pub junk : List ℕ

-- "   1 -> 2, MTU = 2000;"
unfoldable pub link_line : LinkEntry → Line
link_line l = record {
  text =
      32
      ∷ 32
      ∷ 32
      ∷ (48 + l.first)
      ∷ 32
      ∷ 45
      ∷ 62
      ∷ 32
      ∷ (48 + l.second)
      ∷ 44
      ∷ 32
      ∷ 77
      ∷ 84
      ∷ 85
      ∷ 32
      ∷ 61
      ∷ 32
      ∷ (decimal 3 l.mtu ++ (59 ∷ 10 ∷ []));
  junk = l.junk;
}

pub record IsLink (l : LinkEntry) : Type 0 where
  pub first_in : (1 ≤ l.first) × (l.first ≤ 6)
  pub second_in : (1 ≤ l.second) × (l.second ≤ 6)
  pub mtu_in : l.mtu < 10 ^ 4
  pub stops : NoDigit l.junk

-- The matrix with the MTU in both directions.
abbrev pub connect : Links → LinkEntry → Links
connect links l =
    update (update links (l.second - 1) (l.first - 1) (pos l.mtu)) (l.first - 1) (l.second - 1)
      (pos l.mtu)

-- The two chained stores.
store_link-pos :
    (links : Links) (first second mtu : ℕ)
    → (1 ≤ first) × (first ≤ 6)
    → (1 ≤ second) × (second ≤ 6)
    → mtu < 10 ^ 5
    → store_link links (chartoint (48 + first)) (chartoint (48 + second)) (to_int mtu)
      ≡ some (
          update
            (update links (second - 1) (first - 1) (pos mtu))
            (first - 1)
            (second - 1)
            (pos mtu))
unfolding store_link chartoint
store_link-pos links first second mtu f s small =
    let c1 : 48 + first - 48 ≡ first = omega arith in
    let c2 : 48 + second - 48 ≡ second = omega arith in
    let in1 : (leb 1 first && leb first 6) ≡ true = ground (arith, f) in
    let in2 : (leb 1 second && leb second 6) ≡ true = ground (arith, s) in
    let n : to_int mtu ≡ pos mtu = ground arith in rw (c1, c2, in1, in2, n)

read_link :
    (first second digit mtu : ℕ) (others junk : List ℕ) (links links' : Links)
    → is_digit (48 + first) ≡ true
    → is_digit (48 + second) ≡ true
    → is_digit digit ≡ true
    → copy_until 59 (others ++ (59 ∷ 10 ∷ [])) ≡ some (others, 59 ∷ 10 ∷ [])
    → strtol_of 5 (digit ∷ others) junk ≡ some mtu
    → store_link links (chartoint (48 + first)) (chartoint (48 + second)) (to_int mtu) ≡ some links'
    → processlinkline
        (record {
          text =
              32
              ∷ 32
              ∷ 32
              ∷ (48 + first)
              ∷ 32
              ∷ 45
              ∷ 62
              ∷ 32
              ∷ (48 + second)
              ∷ 44
              ∷ 32
              ∷ 77
              ∷ 84
              ∷ 85
              ∷ 32
              ∷ 61
              ∷ 32
              ∷ ((digit ∷ others) ++ (59 ∷ 10 ∷ []));
          junk = junk;
        })
        links
      ≡ some links'
unfolding processlinkline skip_to_digit
read_link first second digit mtu others junk links links' d1 d2 d3 copied value stored =
    rw (d1, d2, d3, copied, value) stored

pub processlinkline-link_line :
    (l : LinkEntry) (links : Links)
    → IsLink l
    → processlinkline (link_line l) links ≡ some (connect links l)
unfolding link_line
processlinkline-link_line l links v =
    let w = decimal-Writes 3 l.mtu v.mtu_in in
    let all : All IsDigit (w.first ∷ w.others) = subst (All IsDigit) w.shape w.all in
    let value : strtol_of 5 (w.first ∷ w.others) l.junk ≡ some l.mtu =
      subst (λ cs. strtol_of 5 cs l.junk ≡ some l.mtu) w.shape
        (strtol_of-Writes l.mtu 4 5 (decimal 3 l.mtu) l.junk w v.stops (omega arith)
          (omega (arith, v.mtu_in))) in
    rw w.shape (
      read_link l.first l.second w.first l.mtu w.others l.junk links (connect links l)
        (ground (arith, v.first_in)) (ground (arith, v.second_in)) (is_digit-IsDigit w.first all.0)
        (copy_until-append 59 w.others (10 ∷ []) (not_stop 59 w.others refl all.1)) value
        (store_link-pos links l.first l.second l.mtu v.first_in v.second_in
          (omega (arith, v.mtu_in))))
