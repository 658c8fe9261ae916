-- ===== src/Qjson/Json/Parse/Depth.antt =====
-- The parser of crates/qjson/src/json.rs accepts no value that is nested more than 128 deep.
use reapermcp.Qjson.Utf8.{Text}
use reapermcp.Prelude.{
  ℕ, suc, ◌≤◌, ◌≡◌, inl, ◌+◌, max, arith, inr, Bool-cases, Option-cases, ltb, ◌==◌, refl,
}
use reapermcp.Qjson.Json.Error.{◌>>=◌, ok, err, Result, out_of_fuel}
use reapermcp.Qjson.Json.{
  Json, bool, null, int, float, str, obj, no_entries, entry, arr, no_items, item, JsonMap, Items,
  insert,
}
use reapermcp.Qjson.Json.Strings.{parse_string}
use reapermcp.Prelude.Decimal.{Bytes}
use reapermcp.Qjson.Json.Parse.Rests.{List-cases}
use reapermcp.Qjson.Json.Parse.{
  Parser, drop_ws, at, parse_key, enter, strip, parse_literal, next_or_close, bracket, items_append,
}

unfoldable mutual
  -- The brackets around the innermost value.
  pub depth : {F : Type 0} → Json F → ℕ
  depth null = 0
  depth (bool b) = 0
  depth (int i) = 0
  depth (float x) = 0
  depth (str t) = 0
  depth (arr l) = suc (items_depth l)
  depth (obj m) = suc (entries_depth m)

  pub items_depth : {F : Type 0} → Items F → ℕ
  items_depth no_items = 0
  items_depth (item v l) = max (depth v) (items_depth l)

  pub entries_depth : {F : Type 0} → JsonMap F → ℕ
  entries_depth no_entries = 0
  entries_depth (entry k v m) = max (depth v) (entries_depth m)

pub items_append_depth :
    {F : Type 0} (l : Items F) (v : Json F) (n : ℕ)
    → items_depth l ≤ n
    → depth v ≤ n
    → items_depth (items_append l v) ≤ n
unfolding items_append depth
items_append_depth no_items v n h k = omega (arith, k)
items_append_depth (item w l) v n h k =
    omega (arith, h, items_append_depth l v n (omega (arith, h)) k)

pub insert_depth :
    {F : Type 0} (k : Text) (v : Json F) (m : JsonMap F) (n : ℕ)
    → entries_depth m ≤ n
    → depth v ≤ n
    → entries_depth (insert k v m).0 ≤ n
unfolding insert depth
insert_depth k v no_entries n h d = omega (arith, d)
insert_depth k v (entry j w m) n h d =
    ground (arith, h, d, insert_depth k v m n (omega (arith, h)) d)

-- What holds of the answer, if it is a value.
abbrev pub Holds : {X : Type 0} → (X → Type 0) → Result X → Type 0
Holds P (ok x) = P x
Holds P (err e) = Unit
Holds P out_of_fuel = Unit

pub Holds-bind :
    {X Y : Type 0} (P : X → Type 0) (Q : Y → Type 0) (r : Result X) (f : X → Result Y)
    → Holds P r
    → ((x : X) → P x → Holds Q (f x))
    → Holds Q (r >>= f)
Holds-bind P Q (ok x) f h k = k x h
Holds-bind P Q (err e) f h k = tt
Holds-bind P Q out_of_fuel f h k = tt

pub bind-Holds :
    {X Y : Type 0} (Q : Y → Type 0) (r : Result X) (f : X → Result Y)
    → ((x : X) → Holds Q (f x))
    → Holds Q (r >>= f)
bind-Holds Q (ok x) f k = k x
bind-Holds Q (err e) f k = tt
bind-Holds Q out_of_fuel f k = tt

-- The parser is back at depth `d`, and the value fits there.
abbrev pub Fits : {F : Type 0} → ℕ → Json F × Parser → Type 0
Fits d (v, q) = (depth v + d ≤ 128) × (q.depth ≡ d)

abbrev pub Keeps : {A : Type 0} → ℕ → A × Parser → Type 0
Keeps d (a, q) = q.depth ≡ d

pub parse_key-Holds : (p : Parser) → Holds (Keeps p.depth) (parse_key p)
unfolding parse_key
parse_key-Holds p = elim (List-cases (drop_ws p.rest)) [
  | inl e ↦ rw (parse_key, e) tt
  | inr (c, s, e) ↦
      rw (parse_key, e)
        (elim (Bool-cases (c == b'"')) [
          | inr other ↦ rw other tt
          | inl quote ↦ rw quote (
              bind-Holds _ (parse_string p.path s) _ (λ (k, s'). elim (List-cases (drop_ws s')) [
                | inl nothing ↦ rw nothing tt
                | inr (d, t, e') ↦ rw e' (elim (Bool-cases (d == b':')) [
                  | inl colon ↦ rw colon refl
                  | inr wrong ↦ rw wrong tt
                ])
              ]))
        ])
]

module _ {F : Type 0} (d : ℕ) where
  pub next_or_close-Holds :
      (close : ℕ) (whole : Json F) (loop : Parser → Result (Json F × Parser)) (p : Parser)
      → p.depth ≡ suc d
      → depth whole + d ≤ 128
      → ((q : Parser) → q.depth ≡ suc d → Holds (Fits d) (loop q))
      → Holds (Fits d) (next_or_close close whole loop p)
  unfolding next_or_close
  next_or_close-Holds close whole loop p h fits k = elim (List-cases (drop_ws p.rest)) [
    | inl e ↦ rw (next_or_close, e) tt
    | inr (c, s, e) ↦
        rw (next_or_close, e)
          (elim (Bool-cases (c == b',')) [
            | inl comma ↦ rw comma (k (at p s) h)
            | inr other ↦ rw other (elim (Bool-cases (c == close)) [
              | inl last ↦ rw last (fits, omega (arith, h))
              | inr wrong ↦ rw wrong tt
            ])
          ])
  ]

  pub bracket-Holds :
      (close : ℕ) (empty : Json F) (s : Bytes) (loop : Parser → Result (Json F × Parser))
      (p : Parser)
      → p.depth ≡ d
      → depth empty ≡ 1
      → ((q : Parser) → q.depth ≡ suc d → suc d ≤ 128 → Holds (Fits d) (loop q))
      → Holds (Fits d) (bracket close empty s loop p)
  unfolding bracket enter
  bracket-Holds close empty s loop p h one k = elim (Bool-cases (ltb 128 (p.depth + 1))) [
    | inl deep ↦ rw deep tt
    | inr fine ↦
        let q : Parser = record p { rest = s; depth = p.depth + 1 } in
        let shallow : suc d ≤ 128 = ground (arith, fine, h) in
        rw fine (elim (List-cases (drop_ws s)) [
          | inl e ↦ rw e (k q (omega (arith, h)) shallow)
          | inr (c, t, e) ↦ rw e (elim (Bool-cases (c == close)) [
            | inl last ↦ rw last (omega (arith, one, shallow), omega (arith, h))
            | inr other ↦ rw other (k q (omega (arith, h)) shallow)
          ])
        ])
  ]

  pub parse_literal-Holds :
      (text : Bytes) (value : Json F) (p : Parser)
      → p.depth ≡ d
      → depth value + d ≤ 128
      → Holds (Fits d) (parse_literal text value p)
  unfolding parse_literal
  parse_literal-Holds text value p h fits = elim (Option-cases (strip text p.rest)) [
    | inl e ↦ rw (parse_literal, e) tt
    | inr (r, e) ↦ rw (parse_literal, e) (fits, h)
  ]
