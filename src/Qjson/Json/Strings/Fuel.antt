-- ===== src/Qjson/Json/Strings/Fuel.antt =====
-- Every round of the string loop of crates/qjson/src/json.rs takes a byte, so the number of bytes
-- is fuel enough.
use reapermcp.Prelude.{
  ℕ, Option, length, some, ◌≤◌, arith, Bool-cases, suc, ltb, none, ◌∷◌, inl, inr, ◌*◌, ◌+◌, zero,
  [], Option-cases, ◌≡◌, ◌++◌, subst, refl,
}
use reapermcp.Qjson.Json.Strings.{
  parse_escape, hex_digits, parse_hex4, low_surrogate, hex_value, unicode_escape, after_first,
  string_loop,
}
use reapermcp.Prelude.Decimal.{Bytes}

-- If something was read, at most `n` bytes are left.
abbrev pub Leaves : {A : Type 0} → ℕ → Option (A × Bytes) → Type 0
Leaves n none = Unit
Leaves n (some (a, r)) = length r ≤ n

pub weaken : {A : Type 0} {m n : ℕ} (o : Option (A × Bytes)) → m ≤ n → Leaves m o → Leaves n o
weaken none h l = tt
weaken (some (a, r)) h l = omega arith

Leaves-hex_digits : (n v : ℕ) (s : Bytes) → Leaves (length s) (hex_digits n v s)
unfolding hex_digits
Leaves-hex_digits zero v s = omega arith
Leaves-hex_digits (suc n) v [] = tt
Leaves-hex_digits (suc n) v (b ∷ s) =
    elim (hex_value b)
      as (λ o.
        Leaves (suc (length s)) (elim o [ none ↦ none | some d ↦ hex_digits n (v * 16 + d) s ])) [
          | none ↦ tt
          | some d ↦
              weaken (hex_digits n (v * 16 + d) s) (omega arith)
                (Leaves-hex_digits n (v * 16 + d) s)
        ]

Leaves-parse_hex4 : (s : Bytes) → Leaves (length s) (parse_hex4 s)
unfolding parse_hex4
Leaves-parse_hex4 s = elim (Bool-cases (ltb (length s) 4)) [
  | inl e ↦ rw e tt
  | inr e ↦ rw e (Leaves-hex_digits 4 0 s)
]

Leaves-low_surrogate : (first : ℕ) (s : Bytes) → Leaves (length s) (low_surrogate first s)
unfolding low_surrogate
Leaves-low_surrogate first (a ∷ u ∷ s) = ground (arith, Leaves-parse_hex4 s)
Leaves-low_surrogate first _ = tt

Leaves-after_first : (first : ℕ) (s : Bytes) → Leaves (length s) (after_first first s)
unfolding after_first
Leaves-after_first first s = ground (arith, Leaves-low_surrogate first s)

Leaves-unicode_escape : (s : Bytes) → Leaves (length s) (unicode_escape s)
unfolding unicode_escape
Leaves-unicode_escape s =
    elim (parse_hex4 s)
        as (λ o.
          Leaves (length s) o
          → Leaves (length s)
              (elim o [ none ↦ none | some (first, rest) ↦ after_first first rest ])) [
                | none ↦ λ h. tt
                | some (first, rest) ↦
                    λ h. weaken (after_first first rest) h (Leaves-after_first first rest)
              ]
      (Leaves-parse_hex4 s)

pub Leaves-parse_escape : (s : Bytes) → Leaves (length s) (parse_escape s)
unfolding parse_escape
Leaves-parse_escape [] = tt
Leaves-parse_escape (e ∷ s) = ground (arith, Leaves-unicode_escape s)

-- More fuel than bytes changes nothing.
pub string_loop-fuel :
    (f g : ℕ) (buf run s : Bytes)
    → length s ≤ f
    → length s ≤ g
    → string_loop f buf run s ≡ string_loop g buf run s
unfolding string_loop
string_loop-fuel zero zero buf run s h k = refl
string_loop-fuel zero (suc g) buf run [] h k = refl
string_loop-fuel zero (suc g) buf run (b ∷ s) h k = absurd (omega arith)
string_loop-fuel (suc f) zero buf run [] h k = refl
string_loop-fuel (suc f) zero buf run (b ∷ s) h k = absurd (omega arith)
string_loop-fuel (suc f) (suc g) buf run [] h k = refl
string_loop-fuel (suc f) (suc g) buf run (b ∷ s) h k = elim (Option-cases (parse_escape s)) [
  | inl e ↦ rw e (ground (arith, string_loop-fuel f g buf (run ++ b ∷ []) s))
  | inr ((decoded, rest), e) ↦ rw e (
      ground (
        arith,
        string_loop-fuel f g buf (run ++ b ∷ []) s,
        string_loop-fuel f g (buf ++ run ++ decoded) [] rest,
        subst (Leaves (length s)) e (Leaves-parse_escape s),
      ))
]
