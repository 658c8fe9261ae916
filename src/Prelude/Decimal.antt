-- ===== src/Prelude/Decimal.antt =====
-- What the program uses of Rust's decimal formatting: `{n}`, `{n:0w}` and `{n:+0w}`.
use reapermcp.Prelude.Int.{ℤ, negsuc, pos}
use reapermcp.Prelude.{
  refl, ap₂, refl, ℕ, List, suc, replicate, ◌<◌, ◌/◌, [], ◌-◌, ◌≡◌, ◌+◌, length, ◌∷◌, arith, codes,
  ◌%◌, ◌++◌, if◌then◌else◌, zero, ltb, ◌≤◌, ◌∙◌, dec_lt, ap,
}

abbrev pub Bytes : Type 0
Bytes = List ℕ

-- The digits of `n` in front of `out`; `n + 1` rounds are enough (`emit-fuel`).
unfoldable pub emit : ℕ → ℕ → Bytes → Bytes
emit zero n out = out
emit (suc f) n out =
    let rest = emit f (n / 10) ((b'0' + n % 10) ∷ out) in
    if ltb n 10 then (b'0' + n) ∷ out else rest

unfoldable pub show : ℕ → Bytes
unfolding emit
show n = emit (suc n) n []

-- `{z:0w}` for a number that is not negative
unfoldable pub pad : ℕ → ℕ → Bytes
unfolding show
pad w n = let s = show n in replicate (w - length s) b'0' ++ s

-- `{z:+0w}`: the sign counts for the width
unfoldable pub pad_signed : ℕ → ℤ → Bytes
unfolding pad
pad_signed w (pos n) = b'+' ∷ pad (w - 1) n
pad_signed w (negsuc n) = b'-' ∷ pad (w - 1) (suc n)

-- `{z}`
unfoldable pub show_ℤ : ℤ → Bytes
unfolding show
show_ℤ (pos n) = show n
show_ℤ (negsuc n) = b'-' ∷ show (suc n)

-- More fuel than the number changes nothing.
pub emit-fuel : (f g n : ℕ) (out : Bytes) → n < f → n < g → emit f n out ≡ emit g n out
unfolding emit
emit-fuel zero g n out h k = absurd (omega arith)
emit-fuel (suc f) zero n out h k = absurd (omega arith)
emit-fuel (suc f) (suc g) n out h k = ground (arith, emit-fuel f g (n / 10) ((b'0' + n % 10) ∷ out))

-- One round of the loop.
pub emit_step :
    (n : ℕ) (out : Bytes)
    → 10 ≤ n
    → emit (suc n) n out ≡ emit (suc (n / 10)) (n / 10) ((b'0' + n % 10) ∷ out)
unfolding emit
emit_step zero out h = absurd (omega arith)
emit_step (suc n) out h =
    ground (arith, emit-fuel (suc n) (suc (suc n / 10)) (suc n / 10) ((b'0' + suc n % 10) ∷ out))

pub emit_last : (n : ℕ) (out : Bytes) → n < 10 → emit (suc n) n out ≡ (b'0' + n) ∷ out
unfolding emit
emit_last n out h = ground arith

-- The digits of a number below 10000.
show_tens : (n : ℕ) → 10 ≤ n → n < 100 → show n ≡ (b'0' + n / 10) ∷ (b'0' + n % 10) ∷ []
unfolding show
show_tens n h k = emit_step n [] h ∙ emit_last (n / 10) _ (omega arith)

show_hundreds :
    (n : ℕ)
    → 100 ≤ n
    → n < 1000
    → show n ≡ (b'0' + n / 100) ∷ (b'0' + n / 10 % 10) ∷ (b'0' + n % 10) ∷ []
unfolding show
show_hundreds n h k =
    emit_step n [] (omega arith)
    ∙ emit_step (n / 10) _ (omega arith)
    ∙ emit_last (n / 10 / 10) _ (omega arith)
    ∙ ap (λ (x : ℕ). (b'0' + x) ∷ (b'0' + n / 10 % 10) ∷ (b'0' + n % 10) ∷ []) (omega arith)

show_thousands :
    (n : ℕ)
    → 1000 ≤ n
    → n < 10000
    → show n
      ≡ (b'0' + n / 1000) ∷ (b'0' + n / 100 % 10) ∷ (b'0' + n / 10 % 10) ∷ (b'0' + n % 10) ∷ []
unfolding show
show_thousands n h k =
    emit_step n [] (omega arith)
    ∙ emit_step (n / 10) _ (omega arith)
    ∙ emit_step (n / 10 / 10) _ (omega arith)
    ∙ emit_last (n / 10 / 10 / 10) _ (omega arith)
    ∙ ap₂ (λ (x y : ℕ). (b'0' + x) ∷ (b'0' + y) ∷ (b'0' + n / 10 % 10) ∷ (b'0' + n % 10) ∷ [])
        (omega arith) (omega arith)

abbrev pub two_digits : ℕ → Bytes
two_digits n = (b'0' + n / 10) ∷ (b'0' + n % 10) ∷ []

pub pad_two : (n : ℕ) → n < 100 → pad 2 n ≡ two_digits n
unfolding pad
pad_two n h = elim (dec_lt n 10) [
  | yes a ↦ unfold show in rw (emit_last n [] a) (ground arith)
  | no a ↦ rw (show_tens n (omega arith) h)
]

abbrev pub four_digits : ℕ → Bytes
four_digits n =
    (b'0' + n / 1000) ∷ (b'0' + n / 100 % 10) ∷ (b'0' + n / 10 % 10) ∷ (b'0' + n % 10) ∷ []

pub pad_four : (n : ℕ) → n < 10000 → pad 4 n ≡ four_digits n
unfolding pad
pad_four n h = elim (dec_lt n 10) [
  | yes a ↦ unfold show in rw (emit_last n [] a) (ground arith)
  | no a ↦ elim (dec_lt n 100) [
    | yes b ↦ rw (show_tens n (omega arith) b) (ground arith)
    | no b ↦ elim (dec_lt n 1000) [
      | yes c ↦ rw (show_hundreds n (omega arith) c) (ground arith)
      | no c ↦ rw (show_thousands n (omega arith) h)
    ]
  ]
]

smallest : show_ℤ (negsuc 9223372036854775807) ≡ codes "-9223372036854775808"
unfolding show_ℤ
smallest = refl
