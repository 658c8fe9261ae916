-- ===== src/Music/TimeMap/RoundTrip.antt =====
-- `bar_start` and `bar_of` of crates/music-domain/src/time.rs undo each other.
use mathlib.Core.Option.{some-injective}
use reapermcp.Prelude.Machine.{to_i64-id}
use reapermcp.Music.BeatTime.Compare.{cmp-lt_iff}
use reapermcp.Music.TimeMap.Ordered.{zero-IsCanonical}
use native.Mathlib.Nat.{mul-le-mul}
use reapermcp.Prelude.Options.{◌>>=◌}
use reapermcp.Prelude.{
  ◌≡◌, arith, refl, subst, List, ◌*◌, some, ap, ℕ, suc, sym, ◌∙◌, Ordering, ◌≤◌, Bool-cases, inl,
  inr,
}
use reapermcp.Prelude.Int.{
  ℤ, eqb_ℤ, ◌*ℤ◌, pos, ◌+ℤ◌, +ℤ_comm, ◌-ℤ◌, *ℤ_comm, ◌≤ℤ◌, negsuc, pos_part, int_laws, *ℤ_parts,
}
use reapermcp.Music.BeatTime.Remainder.{IsI64, IsDivision, div_floor-value}
use reapermcp.Music.BeatTime.Sums.{
  IsSum, IsProduct, add-value, sub-value, from_i128-IsCanonical, fits_i128,
}
use reapermcp.Music.BeatTime.Inverse.{IsSum-IsDifference}
use reapermcp.Music.BeatTime.Value.{normalise-value, zero_mul}
use reapermcp.Music.BeatTime.Canonical.{IsCanonical}
use reapermcp.Music.TimeMap.{
  MeterEvent, bar_of, bar_start, bar_event, meter_event, bar_length_qn, to_i64, TimeSignature,
}
use reapermcp.Music.BeatTime.{
  BeatTime, whole, add, sub, mul, from_i128, abs, limit, div_floor, cmp, try_new,
}

-- The exact multiple of a position.
abbrev pub IsTimes : BeatTime → ℤ → BeatTime → Type 0
IsTimes x n z = z.num *ℤ x.den ≡ x.num *ℤ n *ℤ z.den

add_comm : (grid : ℤ → ℤ → ℤ) (x y : BeatTime) → add grid x y ≡ add grid y x
unfolding add
add_comm grid x y = rw (+ℤ_comm (x.num *ℤ y.den) (y.num *ℤ x.den), *ℤ_comm x.den y.den) refl

abs-*ℤ : (a b : ℤ) → abs (a *ℤ b) ≡ abs a * abs b
unfolding ◌*ℤ◌
abs-*ℤ (pos m) (pos n) = grind arith
abs-*ℤ (pos m) (negsuc n) = grind arith
abs-*ℤ (negsuc m) (pos n) = grind arith
abs-*ℤ (negsuc m) (negsuc n) = grind arith

i64-abs : (n : ℤ) → IsI64 n → abs n ≤ 9223372036854775808
i64-abs (pos n) h = omega (arith, h)
i64-abs (negsuc n) h = omega (arith, h)

i64-IsProduct : (a n : ℤ) → pos (abs a) ≤ℤ limit → IsI64 n → IsProduct (a *ℤ n)
i64-IsProduct a n h k = omega (
  arith,
  abs-*ℤ a n,
  mul-le-mul {n₁ = abs a} {m₁ = abs n} {n₂ = 9223372036854775807} {m₂ = 9223372036854775808}
      (omega (arith, h)) (i64-abs n k),
)

mul-value :
    (grid : ℤ → ℤ → ℤ) (x z : BeatTime) (n : ℤ)
    → IsCanonical x
    → IsCanonical z
    → IsI64 n
    → IsTimes x n z
    → mul grid x n ≡ z
unfolding mul from_i128
mul-value grid x z n hx hz k v =
    let (j, xd) = hx.den_pos in
    let times = i64-IsProduct x.num n hx.num_fits k in
    let small : IsProduct x.den = rw xd (omega (arith, subst (λ d. d ≤ℤ limit) xd hx.den_fits)) in
    rw ((fits_i128 (x.num *ℤ n) (x.num *ℤ n) times times).0, (fits_i128 x.den x.den small small).0)
      (normalise-value _ z (x.num *ℤ n) x.den hz
        (λ e. absurd (omega (arith, ap pos_part (sym xd ∙ e)))) v)

bar_length_qn-IsCanonical :
    (grid : ℤ → ℤ → ℤ) (sig : TimeSignature) (len : BeatTime)
    → bar_length_qn grid sig ≡ some len
    → IsCanonical len
unfolding bar_length_qn try_new
bar_length_qn-IsCanonical grid sig len h = elim (Bool-cases (eqb_ℤ (pos sig.denominator) (pos 0))) [
  | inl e ↦ absurd (grind (arith, rw e at h))
  | inr e ↦
      subst IsCanonical (some-injective _ _ (rw e at h))
        (from_i128-IsCanonical grid (pos (4 * sig.numerator)) (pos sig.denominator))
]

zero_below :
    (x : BeatTime) (p : ℕ)
    → x.num ≡ pos (suc p)
    → IsCanonical x
    → cmp (whole (pos 0)) x ≡ Ordering.lt
zero_below x p e h =
    let (j, xd) = h.den_pos in
    (cmp-lt_iff (whole (pos 0)) x).1
      (rw (e, xd, zero_mul (suc j)) (omega (arith, *ℤ_parts (pos (suc p)) 1)))

no_rest : (a b : ℤ) → a ≡ b → pos 0 ≡ (a -ℤ b) *ℤ pos 1
no_rest a b e = rw e (omega (int_laws, *ℤ_parts (b -ℤ b) 1))

zero_times : (z : ℤ) → pos 0 *ℤ z ≡ pos 0
unfolding ◌*ℤ◌
zero_times z = ground arith

-- A multiple is divided without a rest.
times-IsDivision :
    (x s : BeatTime) (n : ℤ)
    → IsCanonical x
    → IsCanonical s
    → ((p : ℕ) × (x.num ≡ pos (suc p)))
    → IsI64 n
    → IsTimes x n s
    → IsDivision s x n (whole (pos 0))
times-IsDivision x s n hx hs (p, e) fits v = record {
  divisor_pos = (p, e);
  quotient_fits = fits;
  nonneg = omega arith;
  below = zero_below x p e hx;
  value =
      zero_times (s.den *ℤ x.den)
      ∙ no_rest (s.num *ℤ x.den) (n *ℤ x.num *ℤ s.den) (v ∙ ap (λ z. z *ℤ s.den) (*ℤ_comm x.num n));
}

module _ (grid : ℤ → ℤ → ℤ) (l : List MeterEvent) (m : MeterEvent) (len s t : BeatTime)
    (bar : ℤ) where
  -- The start of a bar lies in that bar: if the same meter event is in effect for the bar and at
  -- its start, and the multiple of the bar length and the sum are representable, `bar_start` is
  -- exactly the event's position and so many bar lengths more, and `bar_of` gives the bar back.
  pub bar_of-bar_start :
      bar_event bar l ≡ some m
      → meter_event t l ≡ some m
      → IsCanonical m.qn
      → IsCanonical s
      → IsCanonical t
      → bar_length_qn grid m.sig ≡ some len
      → ((p : ℕ) × (len.num ≡ pos (suc p)))
      → IsI64 bar
      → IsI64 (bar -ℤ m.measure)
      → IsTimes len (bar -ℤ m.measure) s
      → IsSum s m.qn t
      → (bar_start grid l bar ≡ some t) × (bar_of grid l t ≡ some bar)
  unfolding bar_start bar_of
  bar_of-bar_start at_bar at_start cm cs ct known positive fits steps times sum = (
    ap
          (λ o. o >>= λ m. bar_length_qn grid m.sig >>= λ bar_len.
            some (add grid m.qn (mul grid bar_len (to_i64 (bar -ℤ m.measure)))))
          at_bar
        ∙ ap
            (λ o.
              o >>= λ bar_len. some (add grid m.qn (mul grid bar_len (to_i64 (bar -ℤ m.measure)))))
            known
        ∙ ap some here,
    ap
          (λ o. o >>= λ e. bar_length_qn grid e.sig >>= λ bar_len.
            some (to_i64 (e.measure +ℤ div_floor (sub grid t e.qn) bar_len)))
          at_start
        ∙ ap
            (λ o. o >>= λ bar_len. some (to_i64 (m.measure +ℤ div_floor (sub grid t m.qn) bar_len)))
            known
        ∙ ap some back,
  )
    where
      clen : IsCanonical len
      clen = bar_length_qn-IsCanonical grid m.sig len known

      product : mul grid len (to_i64 (bar -ℤ m.measure)) ≡ s
      product =
          rw (to_i64-id (bar -ℤ m.measure) steps)
            (mul-value grid len s (bar -ℤ m.measure) clen cs steps times)

      here : add grid m.qn (mul grid len (to_i64 (bar -ℤ m.measure))) ≡ t
      here = rw product (add_comm grid m.qn s ∙ add-value grid s m.qn t cs cm ct sum)

      quotient : div_floor s len ≡ bar -ℤ m.measure
      quotient =
          div_floor-value s len (whole (pos 0)) (bar -ℤ m.measure) cs clen zero-IsCanonical
            (times-IsDivision len s (bar -ℤ m.measure) clen cs positive steps times)

      returned : m.measure +ℤ (bar -ℤ m.measure) ≡ bar
      returned = omega int_laws

      back : to_i64 (m.measure +ℤ div_floor (sub grid t m.qn) len) ≡ bar
      back =
          rw
            (
              sub-value grid t m.qn s ct cm cs (IsSum-IsDifference s m.qn t cs cm ct sum),
              quotient,
              returned,
            )
            (to_i64-id bar fits)
