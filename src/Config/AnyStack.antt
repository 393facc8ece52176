-- ===== src/Config/AnyStack.antt =====
-- A line of config/config.c as two processes have it, which differ in what the stack holds behind
-- the characters that are copied from the line.
use network_layer_full.Base.{
  ℕ, zero, suc, ◌≡◌, refl, ap, true, Option, none, some, List, [], ◌∷◌, ◌++◌, ◌>>=◌, if◌then◌else◌,
  take,
}
use network_layer_full.Topology.{Host, Links}
use network_layer_full.Config.{
  Line, is_digit, has_stop, digits, strtol_of, skip_to_digit, copy_until, comma_char, end_line_char,
  processlinkline, processhostline,
}
use network_layer_full.Config.Decimal.{NoDigit}

digits-behind :
    (cs junk junk' : List ℕ) (n : ℕ)
    → NoDigit junk
    → NoDigit junk'
    → digits (cs ++ junk) n ≡ digits (cs ++ junk') n
unfolding digits
digits-behind [] [] junk' n h h' = absurd h
digits-behind [] (c ∷ junk) [] n h h' = absurd h'
digits-behind [] (c ∷ junk) (c' ∷ junk') n h h' = rw (h, h')
digits-behind (c ∷ cs) junk junk' n h h' =
    ap (λ more. if is_digit c then more else n) (digits-behind cs junk junk' _ h h')

has_stop-behind :
    (cs junk junk' : List ℕ) (size : ℕ)
    → NoDigit junk
    → NoDigit junk'
    → has_stop (take size (cs ++ junk)) ≡ has_stop (take size (cs ++ junk'))
has_stop-behind cs junk junk' zero h h' = refl
has_stop-behind [] [] junk' (suc size) h h' = absurd h
has_stop-behind [] (c ∷ junk) [] (suc size) h h' = absurd h'
has_stop-behind [] (c ∷ junk) (c' ∷ junk') (suc size) h h' = rw (h, h')
has_stop-behind (c ∷ cs) junk junk' (suc size) h h' =
    ap (λ more. if is_digit c then more else true) (has_stop-behind cs junk junk' size h h')

strtol_of-behind :
    (size : ℕ) (cs junk junk' : List ℕ)
    → NoDigit junk
    → NoDigit junk'
    → strtol_of size cs junk ≡ strtol_of size cs junk'
unfolding strtol_of
strtol_of-behind size cs junk junk' h h' =
    rw (has_stop-behind cs junk junk' size h h', digits-behind cs junk junk' 0 h h')

-- One line as two processes have it.
pub record AlikeLine (l m : Line) : Type 0 where
  pub text : l.text ≡ m.text
  pub ends_l : NoDigit l.junk
  pub ends_m : NoDigit m.junk

bind-same {ℓ κ} :
    {A : Type ℓ} {B : Type κ} (o : Option A) (f g : A → Option B)
    → ((a : A) → f a ≡ g a)
    → (o >>= f) ≡ (o >>= g)
bind-same none f g e = refl
bind-same (some a) f g e = e a

pub processlinkline-same :
    (l m : Line) (links : Links) → AlikeLine l m → processlinkline l links ≡ processlinkline m links
unfolding processlinkline
processlinkline-same l m links s = rw s.text (
    bind-same (skip_to_digit m.text) _ _ (λ first. bind-same (skip_to_digit first.1) _ _ (λ second.
      bind-same (skip_to_digit second.1) _ _ (λ digit.
        bind-same (copy_until end_line_char digit.1) _ _ (λ copied.
          rw (strtol_of-behind 5 (digit.0 ∷ copied.0) l.junk m.junk s.ends_l s.ends_m))))))

pub processhostline-same :
    (inet_pton : List ℕ → Option ℕ) (l m : Line) (ret : Host)
    → AlikeLine l m
    → processhostline inet_pton l ret ≡ processhostline inet_pton m ret
unfolding processhostline
processhostline-same inet_pton l m ret s = rw s.text (
    bind-same (skip_to_digit m.text) _ _ (λ num. bind-same (skip_to_digit num.1) _ _ (λ digit.
      bind-same (copy_until comma_char digit.1) _ _ (λ copied. bind-same _ _ _ (λ ip.
        bind-same (skip_to_digit copied.1) _ _ (λ digit'.
          bind-same (copy_until end_line_char digit'.1) _ _ (λ copied'.
            rw (strtol_of-behind 6 (digit'.0 ∷ copied'.0) l.junk m.junk s.ends_l s.ends_m))))))))
