-- ===== src/Qjson/Json/Error.antt =====
-- The errors of crates/qjson/src/json.rs, without their message texts.
use reapermcp.Prelude.Decimal.{show}
use reapermcp.Prelude.{ℕ, List, ◌∷◌, ◌++◌, if◌then◌else◌, ◌==◌, []}
use reapermcp.Qjson.Utf8.{Text}

pub data JsonErrorKind : Type 0 where
  syntax unexpected_type missing_field depth_limit trailing : JsonErrorKind

pub record JsonError : Type 0 where
  pub kind : JsonErrorKind
  pub path : Text

-- A path segment.
pub data Seg : Type 0 where
  key : Text → Seg
  index : ℕ → Seg

-- `segment.replace('~', "~0").replace('/', "~1")`
pub escape_pointer : Text → Text
escape_pointer [] = []
escape_pointer (c ∷ s) =
    (if c == b'~' then b'~' ∷ b'0' ∷ [] else if c == b'/' then b'~' ∷ b'1' ∷ [] else c ∷ [])
    ++ escape_pointer s

pub path_string : List Seg → Text
unfolding escape_pointer
path_string [] = []
path_string (key k ∷ p) = b'/' ∷ (escape_pointer k ++ path_string p)
path_string (index i ∷ p) = b'/' ∷ (show i ++ path_string p)

pub error : List Seg → JsonErrorKind → JsonError
error path kind = record { kind = kind; path = path_string path }

-- `out_of_fuel` has no counterpart in the program.
pub data Result {ℓ} (A : Type ℓ) : Type ℓ where
  ok : A → Result A
  err : JsonError → Result A
  out_of_fuel : Result A

infixl 5 ◌>>=◌
abbrev pub ◌>>=◌ {ℓ κ} : {A : Type ℓ} {B : Type κ} → Result A → (A → Result B) → Result B
ok a >>= f = f a
err e >>= f = err e
out_of_fuel >>= f = out_of_fuel
