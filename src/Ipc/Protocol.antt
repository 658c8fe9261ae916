-- ===== src/Ipc/Protocol.antt =====
-- The checks of request envelopes in crates/reaper-ipc/src/protocol.rs, with the constants of
-- limits.rs. An error is its code; the message texts and the details are left out. `F` stands for
-- `f64`.
pub mod Envelope
pub mod Accepts
pub mod Steps
use reapermcp.Qjson.Json.Fields.{member, as_str}
use reapermcp.Qjson.Json.{Json, text_eq}
use reapermcp.Prelude.Decimal.{Bytes}
use reapermcp.Prelude.Int.{ℤ, pos}
use reapermcp.Prelude.{
  ℕ, List, Bool, Option, codes, false, not, leb, ◌||◌, true, length, some, ◌∷◌, ◌&&◌, ◌==◌, none,
  [],
}
use reapermcp.Qjson.Utf8.{Text}

-- The codes of `IpcError` that the checks and the heartbeat give.
pub data ErrorCode : Type 0 where
  payload_too_large malformed_request ipc_protocol_mismatch bridge_version_mismatch : ErrorCode
  invalid_instance_token duplicate_request expired_request unknown_command : ErrorCode
  bridge_offline : ErrorCode

pub data Verdict {ℓ} (A : Type ℓ) : Type ℓ where
  accepted : A → Verdict A
  refused : ErrorCode → Verdict A

infixl 5 ◌>>=◌ ◌>>◌
abbrev pub ◌>>=◌ {ℓ κ} : {A : Type ℓ} {B : Type κ} → Verdict A → (A → Verdict B) → Verdict B
accepted a >>= f = f a
refused e >>= f = refused e

abbrev pub ◌>>◌ {ℓ κ} : {A : Type ℓ} {B : Type κ} → Verdict A → Verdict B → Verdict B
accepted a >> v = v
refused e >> v = refused e

abbrev pub protocol_version : Text
protocol_version = codes "qlabs-reaper-ipc/1"

abbrev pub max_request_bytes : ℕ
max_request_bytes = 1048576

abbrev pub max_request_id_len : ℕ
max_request_id_len = 128

abbrev pub clock_skew_seconds : ℤ
clock_skew_seconds = pos 5

abbrev pub commands : List Text
commands =
    codes "commit_candidate"
    ∷ codes "discard_candidate"
    ∷ codes "inspect_selection"
    ∷ codes "ping"
    ∷ codes "stage_candidate"
    ∷ codes "status"
    ∷ codes "undo_last_generation"
    ∷ []

-- `contains` and `iter().any(…)` on strings.
unfoldable pub holds : List Text → Text → Bool
holds [] t = false
holds (s ∷ ss) t = text_eq s t || holds ss t

unfoldable pub is_allowed_command : Text → Bool
is_allowed_command name = holds commands name

unfoldable pub command_needs_project : Text → Bool
command_needs_project name = not (text_eq name (codes "ping") || text_eq name (codes "status"))

-- `is_ascii_alphanumeric`
abbrev pub is_alphanumeric : ℕ → Bool
is_alphanumeric c = (leb 48 c && leb c 57) || (leb 65 c && leb c 90) || (leb 97 c && leb c 122)

abbrev pub is_id_byte : ℕ → Bool
is_id_byte c = is_alphanumeric c || c == b'.' || c == b'_' || c == b'-'

unfoldable pub all_id_bytes : Bytes → Bool
all_id_bytes [] = true
all_id_bytes (c ∷ s) = is_id_byte c && all_id_bytes s

-- `s.contains("..")`
unfoldable pub has_dots : Bytes → Bool
has_dots [] = false
has_dots (c ∷ []) = false
has_dots (c ∷ d ∷ s) = (c == b'.' && d == b'.') || has_dots (d ∷ s)

unfoldable pub starts_alphanumeric : Bytes → Bool
starts_alphanumeric [] = false
starts_alphanumeric (c ∷ s) = is_alphanumeric c

-- `is_safe_id`, on the bytes of the string.
unfoldable pub is_safe_id : Bytes → ℕ → Bool
is_safe_id s max_len =
    leb (length s) max_len && starts_alphanumeric s && all_id_bytes s && not (has_dots s)

-- `diff == 0` at the end of the loop: only whether the byte that collects the differences is zero is
-- kept of it.
unfoldable pub no_difference : Bytes → Bytes → Bool
no_difference (x ∷ xs) (y ∷ ys) = x == y && no_difference xs ys
no_difference _ _ = true

unfoldable pub tokens_equal : Bytes → Bytes → Bool
tokens_equal a b = length a == length b && no_difference a b

pub record ValidationContext : Type 0 where
  pub instance_token : Text
  pub now : ℤ
  pub request_id_hint : Option Text
  pub seen : List Text
  pub raw_size : Option ℕ
  pub bridge_version : Text

pub record ValidatedRequest (F : Type 0) : Type 0 where
  pub request_id : Text
  pub command : Text
  pub expires_unix : ℤ
  pub payload : Json F
  pub expected_project : Option (Json F)
  pub needs_project : Bool

-- An early return unless a test holds.
unfoldable pub require : Bool → ErrorCode → Verdict Bool
require true e = accepted true
require false e = refused e

unfoldable pub or_refuse : {A : Type 0} → Option A → ErrorCode → Verdict A
or_refuse none e = refused e
or_refuse (some a) e = accepted a

-- `unwrap_or("")`
abbrev pub or_empty : Option Text → Text
or_empty none = []
or_empty (some t) = t

unfoldable pub string_of : {F : Type 0} → Option (Json F) → Option Text
string_of none = none
string_of (some v) = as_str v

unfoldable pub opt_string : {F : Type 0} → Json F → Text → Option Text
opt_string v key = string_of (member key v)
