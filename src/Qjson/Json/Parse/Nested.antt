-- ===== src/Qjson/Json/Parse/Nested.antt =====
-- The parser of crates/qjson/src/json.rs accepts no value that is nested more than 128 deep.

use reapermcp.Qjson.Json.Numbers.Kinds.{GivesNumeric, parse_number-GivesNumeric, IsNumeric}
use reapermcp.Prelude.{
  ℕ, ◌≤◌, ◌≡◌, Bool-cases, suc, inl, ◌==◌, inr, codes, ◌+◌, true, arith, false, ◌-◌, ◌||◌, zero,
  ◌∷◌, refl, subst, [], ◌*◌, length,
}
use reapermcp.Qjson.Json.Parse.Depth.{
  depth, items_depth, entries_depth, items_append_depth, insert_depth, Holds, Holds-bind,
  bind-Holds, Fits, Keeps, parse_key-Holds, next_or_close-Holds, bracket-Holds, parse_literal-Holds,
}
use reapermcp.Qjson.Json.Error.{ok, err, Result, key, index, out_of_fuel}
use reapermcp.Qjson.Json.Numbers.{is_empty, is_digit, parse_number}
use reapermcp.Qjson.Json.{
  Json, bool, null, int, float, str, obj, no_entries, arr, no_items, JsonMap, Items, insert,
}
use reapermcp.Qjson.Json.Strings.{parse_string}
use reapermcp.Prelude.Decimal.{Bytes}
use reapermcp.Qjson.Floats.{Floats}
use reapermcp.Qjson.Json.Parse.Rests.{List-cases}
use reapermcp.Qjson.Json.Parse.{
  Parser, push, pop, skip_ws, parse_key, parse_value, parse_members, parse_elements, parse_scalar,
  items_append, items_len, parse, drop_ws,
}

module _ (fs : Floats) where
  open fs use {Float}

  flat : (v : Json Float) → IsNumeric v → depth v ≡ 0
  unfolding depth
  flat (int i) h = refl
  flat (float x) h = refl
  flat null h = absurd h
  flat (bool b) h = absurd h
  flat (str s) h = absurd h
  flat (arr l) h = absurd h
  flat (obj m) h = absurd h

  number-Holds :
      (r : Result (Json Float × Bytes)) → GivesNumeric r → Holds (λ (v, rest). depth v ≡ 0) r
  number-Holds (ok (v, rest)) h = flat v h
  number-Holds (err e) h = tt
  number-Holds out_of_fuel h = tt

  parse_scalar-Holds :
      (c : ℕ) (s : Bytes) (p : Parser)
      → p.depth ≤ 128
      → Holds (Fits p.depth) (parse_scalar fs c s p)
  unfolding parse_scalar depth
  parse_scalar-Holds c s p h = elim (Bool-cases (c == b'"')) [
    | inl quote ↦ rw quote (bind-Holds _ (parse_string p.path s) _ (λ x. (omega (arith, h), refl)))
    | inr e₁ ↦ rw e₁ (elim (Bool-cases (c == b't')) [
      | inl is ↦
          rw is (parse_literal-Holds p.depth (codes "true") (bool true) p refl (omega (arith, h)))
      | inr e₂ ↦ rw e₂ (elim (Bool-cases (c == b'f')) [
        | inl is ↦
            rw is
              (parse_literal-Holds p.depth (codes "false") (bool false) p refl (omega (arith, h)))
        | inr e₃ ↦ rw e₃ (elim (Bool-cases (c == b'n')) [
          | inl is ↦
              rw is (parse_literal-Holds p.depth (codes "null") null p refl (omega (arith, h)))
          | inr e₄ ↦ rw e₄ (elim (Bool-cases (c == b'-' || is_digit c)) [
            | inr other ↦ rw other tt
            | inl number ↦ rw number (
                Holds-bind (λ (v, rest). depth v ≡ 0) (Fits p.depth)
                  (parse_number fs p.path (c ∷ s)) _
                  (number-Holds (parse_number fs p.path (c ∷ s))
                    (parse_number-GivesNumeric fs p.path (c ∷ s)))
                  (λ x zero_deep. (omega (arith, h, zero_deep), refl)))
          ])
        ])
      ])
    ])
  ]

  mutual
    unfolding parse_value parse_members parse_elements push pop skip_ws depth

    parse_value-Holds :
        (f : ℕ) (p : Parser) → p.depth ≤ 128 → Holds (Fits p.depth) (parse_value fs f p)
    parse_value-Holds zero p h = tt
    parse_value-Holds (suc f) p h = elim (List-cases p.rest) [
      | inl e ↦ rw (parse_value, e) tt
      | inr (c, s, e) ↦
          rw (parse_value, e)
            (elim (Bool-cases (c == b'{')) [
              | inl object ↦ rw object (
                  bracket-Holds p.depth b'}' (obj no_entries) s (parse_members fs f no_entries) p
                    refl refl
                    (λ q same more.
                      parse_members-Holds f p.depth no_entries q same (omega (arith, more))))
              | inr e₁ ↦ rw e₁ (elim (Bool-cases (c == b'[')) [
                | inl array ↦ rw array (
                    bracket-Holds p.depth b']' (arr no_items) s (parse_elements fs f no_items) p
                      refl refl
                      (λ q same more.
                        parse_elements-Holds f p.depth no_items q same (omega (arith, more))))
                | inr e₂ ↦ rw e₂ (parse_scalar-Holds c s p h)
              ])
            ])
    ]

    parse_members-Holds :
        (f d : ℕ) (map : JsonMap Float) (p : Parser)
        → p.depth ≡ suc d
        → entries_depth map + suc d ≤ 128
        → Holds (Fits d) (parse_members fs f map p)
    parse_members-Holds zero d map p h fits = tt
    parse_members-Holds (suc f) d map p h fits =
        Holds-bind (Keeps p.depth) (Fits d) (parse_key p) _ (parse_key-Holds p) (λ (k, p₁) same.
          Holds-bind (Fits p₁.depth) (Fits d) (parse_value fs f (push (key k) p₁)) _
            (parse_value-Holds f (push (key k) p₁) (omega (arith, same, h, fits)))
            (λ (v, p₂) (inner, back).
              let map' = (insert k v map).0 in
              let deep : entries_depth map' + suc d ≤ 128 = omega (
                arith,
                fits,
                h,
                same,
                inner,
                insert_depth k v map (128 - suc d) (omega (arith, fits))
                    (omega (arith, inner, same, h)),
              ) in
              next_or_close-Holds d b'}' (obj map') (parse_members fs f map') (pop p₂)
                (omega (arith, back, same, h)) (omega (arith, deep))
                (λ q at. parse_members-Holds f d map' q at deep)))

    parse_elements-Holds :
        (f d : ℕ) (items : Items Float) (p : Parser)
        → p.depth ≡ suc d
        → items_depth items + suc d ≤ 128
        → Holds (Fits d) (parse_elements fs f items p)
    parse_elements-Holds zero d items p h fits = tt
    parse_elements-Holds (suc f) d items p h fits =
        let q = push (index (items_len items)) (skip_ws p) in
        Holds-bind (Fits p.depth) (Fits d) (parse_value fs f q) _
          (parse_value-Holds f q (omega (arith, h, fits)))
          (λ (v, p₁) (inner, back).
            let items' = items_append items v in
            let deep : items_depth items' + suc d ≤ 128 = omega (
              arith,
              fits,
              h,
              inner,
              items_append_depth items v (128 - suc d) (omega (arith, fits))
                  (omega (arith, inner, h)),
            ) in
            next_or_close-Holds d b']' (arr items') (parse_elements fs f items') (pop p₁)
              (omega (arith, back, h)) (omega (arith, deep))
              (λ q at. parse_elements-Holds f d items' q at deep))

  parse-Holds : (s : Bytes) → Holds (λ v. depth v ≤ 128) (parse fs s)
  unfolding parse skip_ws
  parse-Holds s =
      Holds-bind (Fits 0) (λ v. depth v ≤ 128) (parse_value fs (2 * length s + 2) q) _
        (parse_value-Holds (2 * length s + 2) q (omega arith))
        (λ (v, p) (fits, back). elim (Bool-cases (is_empty (drop_ws p.rest))) [
          | inl all ↦ rw all (omega (arith, fits))
          | inr more ↦ rw more tt
        ])
    where
      q : Parser
      q = record { rest = drop_ws s; depth = 0; path = [] }

  -- A value that `Json::parse` gives, for any text, has at most 128 brackets around each of its
  -- parts.
  pub parse-depth : (s : Bytes) (v : Json Float) → parse fs s ≡ ok v → depth v ≤ 128
  parse-depth s v e = subst (Holds (λ w. depth w ≤ 128)) e (parse-Holds s)
