-- ===== src/Qjson/Json/Numbers/Shape.antt =====
-- What `parse_number` of crates/qjson/src/json.rs scans: the number grammar of JSON.
use reapermcp.Prelude.{
  ◌∷◌, ◌≡◌, true, [], ◌||◌, ◌⊎◌, ℕ, false, ◌==◌, ◌++◌, arith, refl, some, inl, Bool-cases, inr, not,
  ==_iff, ◌&&◌,
}
use reapermcp.Qjson.Json.Numbers.{
  is_digit, scan_digits, starts_digit, scan_run, scan_whole, scan_sign, scan_fraction,
  scan_exponent, scan_number, scan_power, is_empty,
}
use reapermcp.Prelude.Decimal.{Bytes}

abbrev pub AllDigits : Bytes → Type 0
AllDigits [] = Unit
AllDigits (c ∷ s) = (is_digit c ≡ true) × AllDigits s

-- `0`, or digits that begin with another one.
abbrev pub IsWhole : Bytes → Type 0
IsWhole [] = ⊥
IsWhole (c ∷ s) = (is_digit c ≡ true) × AllDigits s × (c ≡ b'0' → s ≡ [])

abbrev pub IsSign : Bytes → Type 0
IsSign s = (s ≡ []) ⊎ (s ≡ b'-' ∷ [])

abbrev pub IsRun : Bytes → Type 0
IsRun [] = ⊥
IsRun (c ∷ s) = (is_digit c ≡ true) × AllDigits s

-- The part behind the point, and the power.
pub data IsFraction (s : Bytes) : Type 0 where
  no_fraction : s ≡ [] → IsFraction s
  digits : (ds : Bytes) → s ≡ b'.' ∷ ds → IsRun ds → IsFraction s

pub data IsExponent (s : Bytes) : Type 0 where
  no_exponent : s ≡ [] → IsExponent s
  power :
      (c : ℕ) (ds : Bytes) → (c == b'e' || c == b'E') ≡ true → s ≡ c ∷ ds → IsRun ds → IsExponent s
  signed_power :
      (c d : ℕ) (ds : Bytes)
      → (c == b'e' || c == b'E') ≡ true
      → (d == b'+' || d == b'-') ≡ true
      → s ≡ c ∷ d ∷ ds
      → IsRun ds
      → IsExponent s

pub record IsNumber (sign whole fraction exponent : Bytes) : Type 0 where
  pub sign_ok : IsSign sign
  pub whole_ok : IsWhole whole
  pub fraction_ok : IsFraction fraction
  pub exponent_ok : IsExponent exponent

-- No number goes on behind the text.
abbrev pub Ends : Bytes → Type 0
Ends [] = Unit
Ends (c ∷ s) = (is_digit c || (c == b'.' || (c == b'e' || c == b'E'))) ≡ false

scan_digits-eq :
    (ds s : Bytes) → AllDigits ds → starts_digit s ≡ false → scan_digits (ds ++ s) ≡ (ds, s)
unfolding scan_digits
scan_digits-eq [] [] h e = refl
scan_digits-eq [] (c ∷ s) h e = rw e
scan_digits-eq (d ∷ ds) s (hd, hs) e = rw hd (rw (scan_digits-eq ds s hs e))

-- What stands behind each part of a number.
abbrev NoDigit : Bytes → Type 0
NoDigit s = starts_digit s ≡ false

abbrev NoPoint : Bytes → Type 0
NoPoint [] = Unit
NoPoint (c ∷ s) = (c == b'.') ≡ false

scan_run-eq :
    (lead ds s : Bytes) → IsRun ds → NoDigit s → scan_run lead (ds ++ s) ≡ some (lead ++ ds, s)
unfolding scan_run
scan_run-eq lead [] s h e = elim h [ ]
scan_run-eq lead (d ∷ ds) s (hd, hs) e = rw (scan_digits-eq (d ∷ ds) s (hd, hs) e) (rw hd)

scan_whole-eq : (w s : Bytes) → IsWhole w → NoDigit s → scan_whole (w ++ s) ≡ some (w, s)
unfolding scan_whole
scan_whole-eq [] s h e = elim h [ ]
scan_whole-eq (c ∷ w) s (hc, hw, lead) e = elim (Bool-cases (c == b'0')) [
  | inl z ↦ rw (lead ((==_iff c b'0').0 z)) (rw z (rw e))
  | inr nz ↦ rw nz (rw hc (rw (scan_digits-eq (c ∷ w) s (hc, hw) e)))
]

scan_sign-eq : (sg w s : Bytes) → IsSign sg → IsWhole w → scan_sign (sg ++ (w ++ s)) ≡ (sg, w ++ s)
unfolding scan_sign
scan_sign-eq sg [] s _ h = elim h [ ]
scan_sign-eq sg (c ∷ w) s (inl e) (hc, hw, lead) = rw e (ground arith)
scan_sign-eq sg (c ∷ w) s (inr e) h = rw e

scan_fraction-eq :
    (fr s : Bytes) → IsFraction fr → NoDigit s → NoPoint s → scan_fraction (fr ++ s) ≡ some (fr, s)
unfolding scan_fraction
scan_fraction-eq fr [] (no_fraction e) h k = rw e
scan_fraction-eq fr (c ∷ s) (no_fraction e) h k = rw e (rw k)
scan_fraction-eq fr s (digits ds e run) h k = rw e (scan_run-eq (b'.' ∷ []) ds s run h)

Ends-NoDigit : (s : Bytes) → Ends s → NoDigit s
Ends-NoDigit [] h = refl
Ends-NoDigit (c ∷ s) h = ground arith

scan_exponent-eq : (ex s : Bytes) → IsExponent ex → Ends s → scan_exponent (ex ++ s) ≡ some (ex, s)
unfolding scan_exponent scan_power
scan_exponent-eq ex [] (no_exponent e) h = rw e
scan_exponent-eq ex (c ∷ s) (no_exponent e) h = rw e (ground arith)
scan_exponent-eq ex s (power c [] m e run) h = elim run [ ]
scan_exponent-eq ex s (power c (d ∷ ds) m e (hd, hs)) h =
    rw e (rw m (ground (arith, scan_run-eq (c ∷ []) (d ∷ ds) s (hd, hs) (Ends-NoDigit s h))))
scan_exponent-eq ex s (signed_power c d ds m sg e run) h =
    rw e (rw m (rw sg (scan_run-eq (c ∷ d ∷ []) ds s run (Ends-NoDigit s h))))

behind_fraction : (ex r : Bytes) → IsExponent ex → Ends r → NoDigit (ex ++ r) × NoPoint (ex ++ r)
behind_fraction ex [] (no_exponent e) h = rw e (refl, tt)
behind_fraction ex (c ∷ r) (no_exponent e) h = rw e (ground arith)
behind_fraction ex r (power c ds m e run) h = rw e (ground arith)
behind_fraction ex r (signed_power c d ds m sg e run) h = rw e (ground arith)

behind_whole :
    (fr ex r : Bytes) → IsFraction fr → IsExponent ex → Ends r → NoDigit (fr ++ (ex ++ r))
behind_whole fr ex r (no_fraction e) x h = rw e (behind_fraction ex r x h).0
behind_whole fr ex r (digits ds e run) x h = rw e

-- A number of the grammar is scanned whole, up to a byte that cannot go on with it.
pub scan_number-eq :
    (sg w fr ex r : Bytes)
    → IsNumber sg w fr ex
    → Ends r
    → scan_number (sg ++ (w ++ (fr ++ (ex ++ r))))
      ≡ some (sg ++ (w ++ (fr ++ ex)), not (is_empty fr && is_empty ex), r)
unfolding scan_number
scan_number-eq sg w fr ex r n h =
    let (nodigit, nopoint) = behind_fraction ex r n.exponent_ok h in
    simp (
      scan_sign-eq sg w (fr ++ (ex ++ r)) n.sign_ok n.whole_ok,
      scan_whole-eq w (fr ++ (ex ++ r)) n.whole_ok
          (behind_whole fr ex r n.fraction_ok n.exponent_ok h),
      scan_fraction-eq fr (ex ++ r) n.fraction_ok nodigit nopoint,
      scan_exponent-eq ex r n.exponent_ok h,
    )
