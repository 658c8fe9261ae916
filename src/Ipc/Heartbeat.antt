-- ===== src/Ipc/Heartbeat.antt =====
-- Whether the bridge is alive: `Heartbeat::parse` of crates/reaper-ipc/src/heartbeat.rs and the
-- questions put to a heartbeat. An error is its code, an age a number of seconds.
pub mod Online
pub mod Mismatch
pub mod Tests
use reapermcp.Qjson.Json.Fields.{Casts, as_i64, member}
use reapermcp.Qjson.Json.{Json, Items, no_items, item, str, arr, text_eq}
use reapermcp.Qjson.Floats.{Floats}
use reapermcp.Qjson.Utf8.{Text}
use reapermcp.Ipc.Protocol.Envelope.{is_object}
use reapermcp.Ipc.Protocol.{
  ◌>>=◌, ◌>>◌, Verdict, accepted, require, or_refuse, opt_string, or_empty, protocol_version,
  bridge_offline, ipc_protocol_mismatch, commands,
}
use reapermcp.Prelude.Machine.{to_i64}
use reapermcp.Prelude.Int.{ℤ, pos, pos_part, ltb_ℤ, ◌-ℤ◌}
use reapermcp.Prelude.{
  ℕ, List, [], ◌∷◌, Bool, true, false, ◌&&◌, Option, none, some, codes, not, if◌then◌else◌,
}

abbrev pub lock_stale_seconds : ℤ
lock_stale_seconds = pos 10

pub record Heartbeat (F : Type 0) : Type 0 where
  pub bridge_version : Text
  pub reaper_version : Text
  pub version : Text
  pub project_uuid : Option Text
  pub age : ℕ
  pub raw : Json F

-- `.filter(|v| *v > 0).unwrap_or(limits::LOCK_STALE_SECONDS)`
unfoldable pub positive_or_default : Option ℤ → ℤ
positive_or_default none = lock_stale_seconds
positive_or_default (some v) = if ltb_ℤ (pos 0) v then v else lock_stale_seconds

-- `.max(0)`, as the seconds of a `Duration`.
abbrev pub clamp : ℤ → ℕ
clamp d = pos_part d

-- `==` on lists of strings.
unfoldable same_texts : List Text → List Text → Bool
same_texts [] [] = true
same_texts (s ∷ ss) (t ∷ ts) = text_eq s t && same_texts ss ts
same_texts _ _ = false

module _ (fs : Floats) (casts : Casts fs) where
  open fs use {Float}

  unfoldable pub integer_of : Option (Json Float) → Option ℤ
  integer_of none = none
  integer_of (some v) = as_i64 fs casts v

  unfoldable pub opt_i64 : Json Float → Text → Option ℤ
  opt_i64 doc key = integer_of (member key doc)

  -- `stale_after` of `parse`, and `Heartbeat::stale_after` on the document that is kept.
  unfoldable pub stale_after : Json Float → ℤ
  stale_after doc = positive_or_default (opt_i64 doc (codes "stale_after_seconds"))

  unfoldable pub parse_heartbeat : Json Float → ℤ → Verdict (Heartbeat Float)
  parse_heartbeat doc now = do
    require (is_object doc) bridge_offline
    v ← or_refuse (opt_string doc (codes "protocol_version")) bridge_offline
    require (text_eq v protocol_version) ipc_protocol_mismatch
    require (text_eq (or_empty (opt_string doc (codes "status"))) (codes "online")) bridge_offline
    timestamp ← or_refuse (opt_i64 doc (codes "timestamp")) bridge_offline
    let elapsed = to_i64 (now -ℤ timestamp)
    require (not (ltb_ℤ (stale_after doc) (pos (clamp elapsed)))) bridge_offline
    accepted (record {
      bridge_version = or_empty (opt_string doc (codes "bridge_version"));
      reaper_version = or_empty (opt_string doc (codes "reaper_version"));
      version = v;
      project_uuid = opt_string doc (codes "project_uuid");
      age = clamp elapsed;
      raw = doc;
    })

-- The questions put to a heartbeat.
module _ {F : Type 0} where
  unfoldable pid_token : Heartbeat F → Option Text
  pid_token h = opt_string h.raw (codes "pid_token")

  unfoldable ipc_dir : Heartbeat F → Option Text
  ipc_dir h = opt_string h.raw (codes "ipc_dir")

  unfoldable bridge_schema_version : Heartbeat F → Option Text
  bridge_schema_version h = opt_string h.raw (codes "bridge_schema_version")

  -- `filter_map(Json::as_str)`
  unfoldable keep_strings : Items F → List Text
  keep_strings no_items = []
  keep_strings (item (str t) l) = t ∷ keep_strings l
  keep_strings (item _ l) = keep_strings l

  unfoldable listed : Option (Json F) → List Text
  listed (some (arr l)) = keep_strings l
  listed _ = []

  unfoldable advertised : Heartbeat F → List Text
  advertised h = listed (member (codes "commands") h.raw)

  unfoldable commands_match_this_build : Heartbeat F → Bool
  commands_match_this_build h = same_texts (advertised h) commands
