-- ===== src/Qjson/Json/Parse/Rests.antt =====
-- What the steps of the parser of crates/qjson/src/json.rs leave is not longer than their input.
use reapermcp.Qjson.Json.Strings.{parse_string}
use reapermcp.Qjson.Json.Strings.Lengths.{Answers, Answers-parse_string}
use reapermcp.Qjson.Json.{Json}
use reapermcp.Qjson.Json.Error.{◌>>=◌, Result, ok, err, out_of_fuel}
use reapermcp.Qjson.Json.Parse.{
  Parser, drop_ws, at, enter, strip, parse_literal, bracket, next_or_close, parse_key,
}
use reapermcp.Prelude.Decimal.{Bytes}
use reapermcp.Prelude.{
  ℕ, suc, ◌+◌, ◌≤◌, ◌≡◌, [], ◌∷◌, length, some, Option-cases, inl, inr, arith, refl, ltb, ◌==◌,
  Bool-cases, ◌⊎◌, ap,
}

-- An answer that leaves at most `n` bytes, or an error.
abbrev pub Rests : {A : Type 0} → ℕ → Result (A × Parser) → Type 0
Rests n (ok (a, p)) = length p.rest ≤ n
Rests n (err e) = Unit
Rests n out_of_fuel = ⊥

pub length-drop_ws : (s : Bytes) → length (drop_ws s) ≤ length s
unfolding drop_ws
length-drop_ws [] = omega arith
length-drop_ws (c ∷ s) = ground (arith, length-drop_ws s)

pub List-cases : (s : Bytes) → (s ≡ []) ⊎ ((c : ℕ) × (t : Bytes) × (s ≡ c ∷ t))
List-cases [] = inl refl
List-cases (c ∷ t) = inr (c, t, refl)

module _ {A B : Type 0} where
  pub Rests-bind :
      (n : ℕ) (r : Result (A × Parser)) (f : A × Parser → Result (B × Parser))
      → Rests n r
      → ((a : A) (q : Parser) → length q.rest ≤ n → Rests n (f (a, q)))
      → Rests n (r >>= f)
  Rests-bind n (ok (a, q)) f h k = k a q h
  Rests-bind n (err e) f h k = tt
  Rests-bind n out_of_fuel f h k = h

  pub Answers-bind :
      (n : ℕ) (r : Result (A × Bytes)) (f : A × Bytes → Result (B × Parser))
      → Answers n r
      → ((a : A) (s : Bytes) → length s ≤ n → Rests n (f (a, s)))
      → Rests n (r >>= f)
  Answers-bind n (ok (a, s)) f h k = k a s h
  Answers-bind n (err e) f h k = tt
  Answers-bind n out_of_fuel f h k = h

pub Rests-weaken : {A : Type 0} (m n : ℕ) (r : Result (A × Parser)) → m ≤ n → Rests m r → Rests n r
Rests-weaken m n (ok (a, p)) h k = omega (arith, h, k)
Rests-weaken m n (err e) h k = tt
Rests-weaken m n out_of_fuel h k = k

pub Answers-weaken :
    {A : Type 0} (m n : ℕ) (r : Result (A × Bytes)) → m ≤ n → Answers m r → Answers n r
Answers-weaken m n (ok (a, s)) h k = omega (arith, h, k)
Answers-weaken m n (err e) h k = tt
Answers-weaken m n out_of_fuel h k = k

length-strip : (t s r : Bytes) → strip t s ≡ some r → length r ≤ length s
unfolding strip
length-strip [] s r h = ground (arith, h)
length-strip (c ∷ t) [] r h = absurd (grind (arith, h))
length-strip (c ∷ t) (d ∷ s) r h = elim (Bool-cases (c == d)) [
  | inl e ↦ omega (arith, length-strip t s r (rw e at h))
  | inr e ↦ absurd (grind (arith, (rw e at h)))
]

-- A byte taken from what the white space leaves.
taken : (s : Bytes) (n c : ℕ) (t : Bytes) → drop_ws s ≡ c ∷ t → length s ≤ n → suc (length t) ≤ n
taken s n c t e h = omega (arith, length-drop_ws s, ap length e, h)

module _ {A : Type 0} (n : ℕ) where
  -- The end of a round, when what follows the comma answers.
  pub Rests-next_or_close :
      (close : ℕ) (whole : A) (loop : Parser → Result (A × Parser)) (p : Parser)
      → length p.rest ≤ n
      → ((q : Parser) → suc (length q.rest) ≤ n → Rests n (loop q))
      → Rests n (next_or_close close whole loop p)
  unfolding next_or_close
  Rests-next_or_close close whole loop p h k = elim (List-cases (drop_ws p.rest)) [
    | inl e ↦ rw (next_or_close, e) tt
    | inr (c, s, e) ↦
        let less = taken p.rest n c s e h in
        rw (next_or_close, e)
          (elim (Bool-cases (c == b',')) [
            | inl comma ↦ rw comma (k (at p s) less)
            | inr other ↦ rw other (elim (Bool-cases (c == close)) [
              | inl last ↦ rw last (omega (arith, less))
              | inr wrong ↦ rw wrong tt
            ])
          ])
  ]

  -- A bracket was taken, so that `s` is shorter than the input.
  pub Rests-bracket :
      (close : ℕ) (empty : A) (s : Bytes) (loop : Parser → Result (A × Parser)) (p : Parser)
      → suc (length s) ≤ n
      → ((q : Parser) → suc (length q.rest) ≤ n → Rests n (loop q))
      → Rests n (bracket close empty s loop p)
  unfolding bracket enter
  Rests-bracket close empty s loop p h k = elim (Bool-cases (ltb 128 (p.depth + 1))) [
    | inl deep ↦ rw deep tt
    | inr fine ↦
        let q : Parser = record p { rest = s; depth = p.depth + 1 } in
        rw fine (elim (List-cases (drop_ws s)) [
          | inl e ↦ rw e (k q h)
          | inr (d, t, e) ↦
              let less = taken s (length s) d t e (omega arith) in
              rw e (elim (Bool-cases (d == close)) [
                | inl last ↦ rw last (omega (arith, less, h))
                | inr other ↦ rw other (k q h)
              ])
        ])
  ]

pub Rests-parse_literal :
    {F : Type 0} (n : ℕ) (text : Bytes) (value : Json F) (p : Parser)
    → length p.rest ≤ n
    → Rests n (parse_literal text value p)
unfolding parse_literal
Rests-parse_literal n text value p h = elim (Option-cases (strip text p.rest)) [
  | inl e ↦ rw (parse_literal, e) tt
  | inr (r, e) ↦ rw (parse_literal, e) (omega (arith, h, length-strip text p.rest r e))
]

-- What follows a key: the colon, and the white space behind it.
pub Rests-parse_key : (n : ℕ) (p : Parser) → length p.rest ≤ n → Rests n (parse_key p)
unfolding parse_key
Rests-parse_key n p h = elim (List-cases (drop_ws p.rest)) [
  | inl e ↦ rw (parse_key, e) tt
  | inr (c, s, e) ↦
      let less = taken p.rest n c s e h in
      rw (parse_key, e)
        (elim (Bool-cases (c == b'"')) [
          | inr other ↦ rw other tt
          | inl quote ↦ rw quote (
              Answers-bind n (parse_string p.path s) _
                (Answers-weaken (length s) n (parse_string p.path s) (omega (arith, less))
                  (Answers-parse_string p.path s))
                (λ k s' fits. elim (List-cases (drop_ws s')) [
                  | inl nothing ↦ rw nothing tt
                  | inr (d, t, e') ↦
                      let shorter = taken s' n d t e' fits in
                      rw e' (elim (Bool-cases (d == b':')) [
                        | inl colon ↦ rw colon (omega (arith, shorter, length-drop_ws t))
                        | inr wrong ↦ rw wrong tt
                      ])
                ]))
        ])
]
