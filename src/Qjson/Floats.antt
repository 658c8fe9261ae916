-- ===== src/Qjson/Floats.antt =====
-- Floats for crates/qjson/src/json.rs: the operations of `f64` that it uses are parameters, and
-- `format_f64` is the source's search for the shortest text that reads back.
pub mod Samples
pub mod Shortest
use reapermcp.Prelude.{
  Bool, Option, ℕ, if◌then◌else◌, none, false, some, ◌&&◌, suc, ◌++◌, ◌∷◌, leb, ◌-◌, ◌==◌, length,
  [], zero, ◌||◌,
}
use reapermcp.Prelude.Decimal.{Bytes}

-- Rust's `f64` and its formatting and parsing.
pub record Floats : Type 1 where
  pub Float : Type 0
  pub is_finite : Float → Bool
  -- `a.to_bits() == b.to_bits()`
  pub same_bits : Float → Float → Bool
  -- `text.parse::<f64>().ok()`
  pub parse_f64 : Bytes → Option Float
  -- `{v}`, `{v:?}` and `{:.*e}`
  pub display : Float → Bytes
  pub debug : Float → Bytes
  pub exponential : ℕ → Float → Bytes

-- `cand.contains(['.', 'e', 'E'])`
unfoldable pub has_mark : Bytes → Bool
has_mark [] = false
has_mark (c ∷ s) = c == b'.' || (c == b'e' || (c == b'E' || has_mark s))

-- An optional text as the result of a search.
abbrev shorter : Option Bytes → Bytes → Option Bytes
shorter none cand = some cand
shorter (some b) cand = if leb (length b) (length cand) then some b else some cand

module _ (fs : Floats) where
  open fs use {Float, is_finite, same_bits, parse_f64, display, debug, exponential}

  unfoldable pub matches : Float → Option Float → Bool
  matches v none = false
  matches v (some back) = same_bits back v

  -- `Ok(back) if back.to_bits() == v.to_bits()`
  unfoldable pub reads_back : Float → Bytes → Bool
  reads_back v cand = matches v (parse_f64 cand)

  -- The closure `consider`.
  unfoldable pub consider : Float → Option Bytes → Bytes → Option Bytes
  consider v best cand = if has_mark cand && reads_back v cand then shorter best cand else best

  -- `for precision in 0..=17`, with the rounds left.
  unfoldable pub precisions : Float → ℕ → Option Bytes → Option Bytes
  precisions v zero best = best
  precisions v (suc left) best = precisions v left (consider v best (exponential (17 - left) v))

  unfoldable pub fallback : Bytes → Bytes
  fallback d = if has_mark d then d else d ++ b'.' ∷ b'0' ∷ []

  unfoldable pub chosen : Float → Option Bytes → Bytes
  chosen v none = fallback (debug v)
  chosen v (some b) = b

  unfoldable pub format_f64 : Float → Bytes
  format_f64 v =
      let best = precisions v 18 (consider v (consider v none (display v)) (debug v)) in
      if is_finite v then chosen v best else b'n' ∷ b'u' ∷ b'l' ∷ b'l' ∷ []
