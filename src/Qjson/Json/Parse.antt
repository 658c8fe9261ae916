-- ===== src/Qjson/Json/Parse.antt =====
-- The recursive descent of crates/qjson/src/json.rs: `Json::parse`, `parse_value`, `parse_object`,
-- `parse_array`, `parse_literal`, `skip_ws` and `enter`. The position is the list of the bytes from
-- it on; the errors carry their kind and path.
pub mod Steps
pub mod Loops
pub mod Rests
pub mod Total
pub mod Depth
pub mod Nested
use reapermcp.Qjson.Json.Numbers.{is_empty, is_digit, parse_number}
use reapermcp.Qjson.Json.Strings.{parse_string}
use reapermcp.Qjson.Utf8.{Text}
use reapermcp.Qjson.Json.{
  Items, Json, item, no_items, obj, no_entries, arr, JsonMap, str, insert, bool, null,
}
use reapermcp.Prelude.Decimal.{Bytes}
use reapermcp.Prelude.{
  ℕ, List, Bool, ◌∷◌, ◌-◌, ◌++◌, Option, if◌then◌else◌, ltb, [], some, suc, ◌==◌, ◌+◌, none, ◌||◌,
  ◌*◌, length, codes, zero, true, false,
}
use reapermcp.Qjson.Json.Error.{
  ◌>>=◌, Result, JsonErrorKind, Seg, err, error, out_of_fuel, syntax, depth_limit, ok, key, index,
  trailing,
}
use reapermcp.Qjson.Floats.{Floats}

abbrev pub max_parse_depth : ℕ
max_parse_depth = 128

pub record Parser : Type 0 where
  pub rest : Bytes
  pub depth : ℕ
  pub path : List Seg

abbrev pub is_ws : ℕ → Bool
is_ws c = c == b' ' || (c == 0x09 || (c == 0x0a || c == 0x0d))

pub drop_ws : Bytes → Bytes
drop_ws [] = []
drop_ws (c ∷ s) = let rest = drop_ws s in if is_ws c then rest else c ∷ s

pub skip_ws : Parser → Parser
skip_ws p = record p { rest = drop_ws p.rest }

abbrev pub at : Parser → Bytes → Parser
at p s = record p { rest = s }

abbrev pub fail : {A : Type 0} → Parser → JsonErrorKind → Result A
fail p kind = err (error p.path kind)

-- `enter`, and the step over the bracket.
pub enter : Bytes → Parser → Result Parser
enter s p =
    if ltb max_parse_depth (p.depth + 1)
    then fail p depth_limit
    else ok (record p { rest = s; depth = p.depth + 1 })

-- `self.depth -= 1`, behind the closing bracket.
abbrev pub leave : Parser → Bytes → Parser
leave p s = record p { rest = s; depth = p.depth - 1 }

pub push : Seg → Parser → Parser
push g p = record p { path = p.path ++ g ∷ [] }

-- `self.path.pop()` takes the last segment off.
abbrev pub drop_last : List Seg → List Seg
drop_last [] = []
drop_last (g ∷ []) = []
drop_last (g ∷ h ∷ l) = g ∷ drop_last (h ∷ l)

pub pop : Parser → Parser
pop p = record p { path = drop_last p.path }

-- The rest behind `text`, if the input begins with it.
pub strip : Bytes → Bytes → Option Bytes
strip [] s = some s
strip (c ∷ t) [] = none
strip (c ∷ t) (d ∷ s) = if c == d then strip t s else none

module _ {F : Type 0} where
  unfoldable pub items_append : Items F → Json F → Items F
  items_append no_items v = item v no_items
  items_append (item w l) v = item w (items_append l v)

  pub items_len : Items F → ℕ
  items_len no_items = 0
  items_len (item w l) = suc (items_len l)

  pub parse_literal : Bytes → Json F → Parser → Result (Json F × Parser)
  parse_literal text value p = elim (strip text p.rest) [
    | none ↦ fail p syntax
    | some s ↦ ok (value, at p s)
  ]

-- The key, the colon and what is in front of the value.
pub parse_key : Parser → Result (Text × Parser)
parse_key p = elim (drop_ws p.rest) [
  | [] ↦ fail p syntax
  | c ∷ s ↦
      if c == b'"'
      then (do
        (k, s') ← parse_string p.path s
        elim (drop_ws s') [
          | [] ↦ fail p syntax
          | d ∷ s'' ↦ if d == b':' then ok (k, at p (drop_ws s'')) else fail p syntax
        ])
      else fail p syntax
]

-- The start of `parse_object` and `parse_array`: the bracket and, if the other bracket follows, the
-- empty value.
pub bracket :
    {A : Type 0} → ℕ → A → Bytes → (Parser → Result (A × Parser)) → Parser → Result (A × Parser)
bracket close empty s loop p = do
  p₁ ← enter s p
  elim (drop_ws s) [ [] ↦ loop p₁ | d ∷ t ↦ if d == close then ok (empty, leave p₁ t) else loop p₁ ]

-- The end of a round of the two loops: a comma and the next round, or the bracket and the value.
pub next_or_close :
    {A : Type 0} → ℕ → A → (Parser → Result (A × Parser)) → Parser → Result (A × Parser)
next_or_close close whole loop p = elim (drop_ws p.rest) [
  | [] ↦ fail p syntax
  | c ∷ s ↦
      if c == b','
      then loop (at p s)
      else if c == close
      then ok (whole, leave p s)
      else fail p syntax
]

module _ (fs : Floats) where
  open fs use {Float}

  -- The values that hold no other value.
  pub parse_scalar : ℕ → Bytes → Parser → Result (Json Float × Parser)
  parse_scalar c s p =
      if c == b'"'
      then (do (t, rest) ← parse_string p.path s; ok (str t, at p rest))
      else if c == b't'
      then parse_literal (codes "true") (bool true) p
      else if c == b'f'
      then parse_literal (codes "false") (bool false) p
      else if c == b'n'
      then parse_literal (codes "null") null p
      else if c == b'-' || is_digit c
      then (do (v, rest) ← parse_number fs p.path (c ∷ s); ok (v, at p rest))
      else fail p syntax

  mutual
    pub parse_value : ℕ → Parser → Result (Json Float × Parser)
    parse_value zero p = out_of_fuel
    parse_value (suc f) p = elim p.rest [
      | [] ↦ fail p syntax
      | c ∷ s ↦
          if c == b'{'
          then bracket b'}' (obj no_entries) s (parse_members f no_entries) p
          else if c == b'['
          then bracket b']' (arr no_items) s (parse_elements f no_items) p
          else parse_scalar c s p
    ]

    -- The loop of `parse_object`.
    pub parse_members : ℕ → JsonMap Float → Parser → Result (Json Float × Parser)
    parse_members zero map p = out_of_fuel
    parse_members (suc f) map p = do
      (k, p₁) ← parse_key p
      (v, p₂) ← parse_value f (push (key k) p₁)
      let map' = (insert k v map).0
      next_or_close b'}' (obj map') (parse_members f map') (pop p₂)

    -- The loop of `parse_array`.
    pub parse_elements : ℕ → Items Float → Parser → Result (Json Float × Parser)
    parse_elements zero items p = out_of_fuel
    parse_elements (suc f) items p = do
      (v, p₁) ← parse_value f (push (index (items_len items)) (skip_ws p))
      let items' = items_append items v
      next_or_close b']' (arr items') (parse_elements f items') (pop p₁)

  -- Every call of a value or a loop round takes a byte, but for the call of the loop itself.
  pub parse : Bytes → Result (Json Float)
  parse s = do
    (v, p) ← parse_value (2 * length s + 2) (skip_ws (record { rest = s; depth = 0; path = [] }))
    if is_empty (drop_ws p.rest) then ok v else fail p trailing
