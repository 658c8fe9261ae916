-- ===== src/Qjson/Json/Fields.antt =====
-- The typed readers of `Json` in crates/qjson/src/json.rs.
use reapermcp.Prelude.Int.{ℤ}
use reapermcp.Qjson.Json.Error.{
  ◌>>=◌, JsonError, Result, unexpected_type, err, ok, missing_field, escape_pointer, syntax,
  depth_limit, trailing, out_of_fuel,
}
use reapermcp.Qjson.Utf8.{Text}
use reapermcp.Qjson.Json.{
  get, Json, Items, str, arr, JsonMap, obj, int, bool, item, float, null, no_items,
}
use reapermcp.Qjson.Floats.{Floats}
use reapermcp.Prelude.{
  ℕ, ◌≡◌, Option, Bool, none, some, if◌then◌else◌, true, false, ◌∷◌, suc, [], ◌&&◌, zero,
  Bool-cases, refl, inl, inr,
}

-- What `as_i64` and `as_f64` use of `f64`: `fract() == 0.0`, the tests against the bounds of i64, the
-- cast of such a float and the one of an integer.
pub record Casts (fs : Floats) : Type 0 where
  pub is_whole : fs.Float → Bool
  pub at_least_min : fs.Float → Bool
  pub below_limit : fs.Float → Bool
  pub to_i64 : fs.Float → ℤ
  pub of_i64 : ℤ → fs.Float

pub wrong_type : Text → JsonError
wrong_type k = record { kind = unexpected_type; path = b'/' ∷ escape_pointer k }

-- `.ok_or_else(…)`
pub ok_or : {A : Type 0} → JsonError → Option A → Result A
ok_or e none = err e
ok_or e (some a) = ok a

-- `.map(Some)`
some_of : {A : Type 0} → Option A → Option (Option A)
some_of none = none
some_of (some a) = some (some a)

pub is_null : {F : Type 0} → Json F → Bool
is_null null = true
is_null _ = false

module _ {F : Type 0} where
  unfoldable pub as_bool : Json F → Option Bool
  as_bool (bool b) = some b
  as_bool _ = none

  unfoldable pub as_str : Json F → Option Text
  as_str (str s) = some s
  as_str _ = none

  pub as_arr : Json F → Option (Items F)
  as_arr (arr l) = some l
  as_arr _ = none

  pub as_obj : Json F → Option (JsonMap F)
  as_obj (obj m) = some m
  as_obj _ = none

  -- `Json::get`
  unfoldable pub member : Text → Json F → Option (Json F)
  member k (obj m) = get k m
  member k _ = none

  pub nth : ℕ → Items F → Option (Json F)
  nth i no_items = none
  nth zero (item v l) = some v
  nth (suc i) (item v l) = nth i l

  pub idx : ℕ → Json F → Option (Json F)
  idx i (arr l) = nth i l
  idx i _ = none

  pub field : Text → Json F → Result (Json F)
  field k (obj m) =
      ok_or (record { kind = missing_field; path = b'/' ∷ escape_pointer k }) (get k m)
  field k _ = err (record { kind = unexpected_type; path = [] })

  -- `.filter(|v| !v.is_null())`
  pub not_null : Option (Json F) → Option (Json F)
  not_null none = none
  not_null (some v) = if is_null v then none else some v

  pub opt_raw : Text → Json F → Result (Option (Json F))
  opt_raw k (obj m) = ok (not_null (get k m))
  opt_raw k _ = err (record { kind = unexpected_type; path = [] })

  -- The body that the required readers share, and that of the optional ones.
  pub required : {A : Type 0} → (Json F → Option A) → Text → Json F → Result A
  required reader k v = do w ← field k v; ok_or (wrong_type k) (reader w)

  reads_raw : {A : Type 0} → (Json F → Option A) → Text → Option (Json F) → Result (Option A)
  reads_raw reader k none = ok none
  reads_raw reader k (some w) = ok_or (wrong_type k) (some_of (reader w))

  pub optional : {A : Type 0} → (Json F → Option A) → Text → Json F → Result (Option A)
  optional reader k v = do o ← opt_raw k v; reads_raw reader k o

  pub str_field : Text → Json F → Result Text
  str_field k v = required as_str k v

  pub bool_field : Text → Json F → Result Bool
  bool_field k v = required as_bool k v

  pub arr_field : Text → Json F → Result (Items F)
  arr_field k v = required as_arr k v

  pub obj_field : Text → Json F → Result (JsonMap F)
  obj_field k v = required as_obj k v

  pub opt_str_field : Text → Json F → Result (Option Text)
  opt_str_field k v = optional as_str k v

  pub opt_bool_field : Text → Json F → Result (Option Bool)
  opt_bool_field k v = optional as_bool k v

  pub opt_arr_field : Text → Json F → Result (Option (Items F))
  opt_arr_field k v = optional as_arr k v

  pub opt_obj_field : Text → Json F → Result (Option (JsonMap F))
  opt_obj_field k v = optional as_obj k v

module _ (fs : Floats) (casts : Casts fs) where
  open fs use {Float, is_finite}

  unfoldable pub as_i64 : Json Float → Option ℤ
  as_i64 (int i) = some i
  as_i64 (float f) =
      if is_finite f && (casts.is_whole f && (casts.at_least_min f && casts.below_limit f))
      then some (casts.to_i64 f)
      else none
  as_i64 _ = none

  pub as_f64 : Json Float → Option Float
  as_f64 (int i) = some (casts.of_i64 i)
  as_f64 (float f) = some f
  as_f64 _ = none

  pub i64_field : Text → Json Float → Result ℤ
  i64_field k v = required as_i64 k v

  pub f64_field : Text → Json Float → Result Float
  f64_field k v = required as_f64 k v

  pub opt_i64_field : Text → Json Float → Result (Option ℤ)
  opt_i64_field k v = optional as_i64 k v

  pub opt_f64_field : Text → Json Float → Result (Option Float)
  opt_f64_field k v = optional as_f64 k v

-- How an optional reader goes with the required one.
abbrev pub or_missing : {A : Type 0} → Result A → Result (Option A)
or_missing (ok a) = ok (some a)
or_missing (err e) = elim e.kind [
  | missing_field ↦ ok none
  | syntax ↦ err e
  | unexpected_type ↦ err e
  | depth_limit ↦ err e
  | trailing ↦ err e
]
or_missing out_of_fuel = out_of_fuel

abbrev pub is_null_member : {F : Type 0} → Option (Json F) → Bool
is_null_member none = false
is_null_member (some v) = is_null v

module _ {F : Type 0} {A : Type 0} (reader : Json F → Option A) (k : Text) where
  found_cases :
      (o : Option A) → ok_or (wrong_type k) (some_of o) ≡ or_missing (ok_or (wrong_type k) o)
  unfolding ok_or some_of wrong_type
  found_cases none = refl
  found_cases (some a) = refl

  member_cases :
      (o : Option (Json F))
      → (do r ← ok (not_null o); reads_raw reader k r) ≡ (
          if is_null_member o
          then ok none
          else or_missing (do
            w ← ok_or (record { kind = missing_field; path = b'/' ∷ escape_pointer k }) o
            ok_or (wrong_type k) (reader w)))
  unfolding not_null reads_raw ok_or
  member_cases none = refl
  member_cases (some w) = elim (Bool-cases (is_null w)) [
    | inl h ↦ rw h refl
    | inr h ↦ rw h (found_cases (reader w))
  ]

  -- An optional reader gives nothing for a member that is null or missing; else it gives what the
  -- required reader gives, its error included.
  pub optional-required :
      (v : Json F)
      → optional reader k v
        ≡ (if is_null_member (member k v) then ok none else or_missing (required reader k v))
  unfolding optional required opt_raw field member
  optional-required (obj m) = member_cases (get k m)
  optional-required null = refl
  optional-required (bool b) = refl
  optional-required (int z) = refl
  optional-required (float f) = refl
  optional-required (str s) = refl
  optional-required (arr l) = refl
