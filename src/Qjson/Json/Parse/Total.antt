-- ===== src/Qjson/Json/Parse/Total.antt =====
-- The parser of crates/qjson/src/json.rs answers for every input: its fuel is enough.
use reapermcp.Qjson.Json.Error.{◌>>=◌, ok, err, Result, key, index, out_of_fuel}
use reapermcp.Qjson.Json.Numbers.Lengths.{Answers-parse_number}
use reapermcp.Qjson.Json.Numbers.{is_digit, is_empty, parse_number}
use reapermcp.Qjson.Json.{bool, null, obj, no_entries, arr, no_items, JsonMap, Items, insert}
use reapermcp.Qjson.Json.Strings.Lengths.{Answers-parse_string}
use reapermcp.Qjson.Json.Strings.{parse_string}
use reapermcp.Prelude.Decimal.{Bytes}
use reapermcp.Qjson.Floats.{Floats}
use reapermcp.Qjson.Json.Parse.Rests.{
  Rests, Rests-bind, Answers-bind, Answers-weaken, Rests-weaken, Rests-next_or_close, Rests-bracket,
  Rests-parse_literal, Rests-parse_key, length-drop_ws, List-cases,
}
use reapermcp.Qjson.Json.Parse.{
  Parser, drop_ws, push, pop, skip_ws, parse, parse_key, parse_value, parse_members, parse_elements,
  parse_scalar, items_append, items_len,
}
use reapermcp.Prelude.{
  ℕ, suc, ◌+◌, ◌≤◌, ◌≡◌, [], ◌∷◌, length, inl, inr, arith, ◌==◌, Bool-cases, ap, codes, true, false,
  ◌||◌, ◌*◌, zero, ◌≢◌,
}

Rests-answers :
    {A B : Type 0} (n : ℕ) (r : Result (A × Parser)) (f : A × Parser → Result B)
    → Rests n r
    → ((a : A) (p : Parser) → f (a, p) ≢ out_of_fuel)
    → (r >>= f) ≢ out_of_fuel
Rests-answers n (ok (a, p)) f h k = k a p
Rests-answers n (err e) f h k = λ w. grind (arith, w)
Rests-answers n out_of_fuel f h k = λ w. h

module _ (fs : Floats) where
  open fs use {Float}

  Rests-parse_scalar :
      (n c : ℕ) (s : Bytes) (p : Parser)
      → length p.rest ≤ n
      → suc (length s) ≤ n
      → Rests n (parse_scalar fs c s p)
  unfolding parse_scalar
  Rests-parse_scalar n c s p h less = elim (Bool-cases (c == b'"')) [
    | inl quote ↦ rw quote (
        Answers-bind n (parse_string p.path s) _
          (Answers-weaken (length s) n (parse_string p.path s) (omega (arith, less))
            (Answers-parse_string p.path s))
          (λ t rest fits. fits))
    | inr e₁ ↦ rw e₁ (elim (Bool-cases (c == b't')) [
      | inl is ↦ rw is (Rests-parse_literal n (codes "true") (bool true) p h)
      | inr e₂ ↦ rw e₂ (elim (Bool-cases (c == b'f')) [
        | inl is ↦ rw is (Rests-parse_literal n (codes "false") (bool false) p h)
        | inr e₃ ↦ rw e₃ (elim (Bool-cases (c == b'n')) [
          | inl is ↦ rw is (Rests-parse_literal n (codes "null") null p h)
          | inr e₄ ↦ rw e₄ (elim (Bool-cases (c == b'-' || is_digit c)) [
            | inr other ↦ rw other tt
            | inl number ↦ rw number (
                Answers-bind n (parse_number fs p.path (c ∷ s)) _
                  (Answers-weaken (length (c ∷ s)) n (parse_number fs p.path (c ∷ s)) less
                    (Answers-parse_number fs p.path (c ∷ s)))
                  (λ v rest fits. fits))
          ])
        ])
      ])
    ])
  ]

  mutual
    unfolding parse_value parse_members parse_elements push pop skip_ws

    Rests-parse_value :
        (f : ℕ) (p : Parser)
        → 2 * length p.rest + 1 ≤ f
        → Rests (length p.rest) (parse_value fs f p)
    Rests-parse_value zero p h = absurd (omega (arith, h))
    Rests-parse_value (suc f) p h = elim (List-cases p.rest) [
      | inl e ↦ rw (parse_value, e) tt
      | inr (c, s, e) ↦
          let size : suc (length s) ≤ suc (length s) = omega arith in
          let n = suc (length s) in
          let whole : length p.rest ≡ suc (length s) = ap length e in
          rw (parse_value, e)
            (elim (Bool-cases (c == b'{')) [
              | inl object ↦ rw object (
                  Rests-bracket n b'}' (obj no_entries) s (parse_members fs f no_entries) p size
                    (λ q less.
                      Rests-weaken (length q.rest) n (parse_members fs f no_entries q)
                        (omega (arith, less))
                        (Rests-parse_members f no_entries q (omega (arith, less, h, whole)))))
              | inr e₁ ↦ rw e₁ (elim (Bool-cases (c == b'[')) [
                | inl array ↦ rw array (
                    Rests-bracket n b']' (arr no_items) s (parse_elements fs f no_items) p size
                      (λ q less.
                        Rests-weaken (length q.rest) n (parse_elements fs f no_items q)
                          (omega (arith, less))
                          (Rests-parse_elements f no_items q (omega (arith, less, h, whole)))))
                | inr e₂ ↦ rw e₂ (Rests-parse_scalar n c s p (omega (arith, whole)) size)
              ])
            ])
    ]

    Rests-parse_members :
        (f : ℕ) (map : JsonMap Float) (p : Parser)
        → 2 * length p.rest + 2 ≤ f
        → Rests (length p.rest) (parse_members fs f map p)
    Rests-parse_members zero map p h = absurd (omega (arith, h))
    Rests-parse_members (suc f) map p h =
        let n = length p.rest in
        Rests-bind n (parse_key p) _ (Rests-parse_key n p (omega arith)) (λ k p₁ fits.
          Rests-bind n (parse_value fs f (push (key k) p₁)) _
            (Rests-weaken (length p₁.rest) n (parse_value fs f (push (key k) p₁)) fits
              (Rests-parse_value f (push (key k) p₁) (omega (arith, fits, h))))
            (λ v p₂ fits₂.
              let map' = (insert k v map).0 in
              Rests-next_or_close n b'}' (obj map') (parse_members fs f map') (pop p₂) fits₂
                (λ q less.
                  Rests-weaken (length q.rest) n (parse_members fs f map' q) (omega (arith, less))
                    (Rests-parse_members f map' q (omega (arith, less, h))))))

    Rests-parse_elements :
        (f : ℕ) (items : Items Float) (p : Parser)
        → 2 * length p.rest + 2 ≤ f
        → Rests (length p.rest) (parse_elements fs f items p)
    Rests-parse_elements zero items p h = absurd (omega (arith, h))
    Rests-parse_elements (suc f) items p h =
        let n = length p.rest in
        let q = push (index (items_len items)) (skip_ws p) in
        let fits = length-drop_ws p.rest in
        Rests-bind n (parse_value fs f q) _
          (Rests-weaken (length q.rest) n (parse_value fs f q) fits
            (Rests-parse_value f q (omega (arith, fits, h))))
          (λ v p₁ fits₁.
            let items' = items_append items v in
            Rests-next_or_close n b']' (arr items') (parse_elements fs f items') (pop p₁) fits₁
              (λ q less.
                Rests-weaken (length q.rest) n (parse_elements fs f items' q) (omega (arith, less))
                  (Rests-parse_elements f items' q (omega (arith, less, h)))))

  -- `Json::parse` answers for every text, with a value or with an error: the fuel that `parse` gives
  -- the descent is enough for every input, of any depth and with any mistake in it.
  pub parse-answers : (s : Bytes) → parse fs s ≢ out_of_fuel
  unfolding parse skip_ws
  parse-answers s =
      Rests-answers (length (drop_ws s)) (parse_value fs (2 * length s + 2) q) _
        (Rests-parse_value (2 * length s + 2) q (omega (arith, length-drop_ws s)))
        (λ v p e. elim (Bool-cases (is_empty (drop_ws p.rest))) [
          | inl whole ↦ grind (arith, (rw whole at e))
          | inr more ↦ grind (arith, (rw more at e))
        ])
    where
      q : Parser
      q = record { rest = drop_ws s; depth = 0; path = [] }
