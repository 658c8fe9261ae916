-- ===== src/Ipc/Result.antt =====
-- The result envelopes of crates/reaper-ipc/src/envelope.rs, and `interpret_result` of client.rs. The
-- duration, a float, is left out.

pub mod Steps
pub mod Own
use reapermcp.Qjson.Json.{Json, Items, no_items, arr, null, obj, no_entries, text_eq}
use reapermcp.Qjson.Json.Fields.{member, as_bool}
use reapermcp.Qjson.Utf8.{Text}
use reapermcp.Ipc.Protocol.Envelope.{is_object}
use reapermcp.Ipc.Protocol.{opt_string, or_empty, protocol_version, ipc_protocol_mismatch}
use reapermcp.Ipc.Failure.{Failure, from_wire, internal_bridge_error, code_text}
use reapermcp.Prelude.{Option, Bool, none, some, codes, true, false, not, ◌&&◌, if◌then◌else◌}

pub record ResultEnvelope (F : Type 0) : Type 0 where
  pub version : Text
  pub request_id : Text
  pub command : Option Text
  pub ok : Bool
  pub result : Option (Json F)
  pub error : Option (Failure F)
  pub transaction_id : Option Text
  pub bridge_version : Text
  pub reaper_version : Option Text
  pub started_at : Option Text
  pub completed_at : Option Text
  pub warnings : Items F
  pub raw : Json F

-- What the client makes of a result: the value, the error that the bridge sent, or an error of its
-- own, of which the code is kept.
pub data Outcome (F : Type 0) : Type 0 where
  value : Json F → Outcome F
  bridge_error : Failure F → Outcome F
  local_error : Text → Outcome F

pub data Attempt (A : Type 0) : Type 0 where
  parsed : A → Attempt A
  broken : Text → Attempt A

infixl 5 ◌>>=◌ ◌>>◌
abbrev pub ◌>>=◌ : {A B : Type 0} → Attempt A → (A → Attempt B) → Attempt B
parsed a >>= f = f a
broken c >>= f = broken c

abbrev pub ◌>>◌ : {A B : Type 0} → Attempt A → Attempt B → Attempt B
parsed a >> v = v
broken c >> v = broken c

unfoldable pub check : Bool → Text → Attempt Bool
check true c = parsed true
check false c = broken c

unfoldable pub or_break : {A : Type 0} → Option A → Text → Attempt A
or_break none c = broken c
or_break (some a) c = parsed a

unfoldable pub is_some : {A : Type 0} → Option A → Bool
is_some none = false
is_some (some a) = true

module _ {F : Type 0} where
  unfoldable pub bool_of : Option (Json F) → Option Bool
  bool_of none = none
  bool_of (some v) = as_bool v

  -- `Some(Json::Null) | None => None`
  unfoldable pub unless_null : Option (Json F) → Option (Json F)
  unless_null none = none
  unless_null (some null) = none
  unless_null (some v) = some v

  unfoldable pub error_of : Option (Json F) → Option (Failure F)
  error_of none = none
  error_of (some v) = some (from_wire v)

  unfoldable pub items_of : Option (Json F) → Items F
  items_of (some (arr l)) = l
  items_of _ = no_items

  unfoldable pub parse_result : Json F → Attempt (ResultEnvelope F)
  parse_result v = do
    check (is_object v) internal_bridge_error
    check (text_eq (or_empty (opt_string v (codes "protocol_version"))) protocol_version)
        (code_text ipc_protocol_mismatch)
    ok ← or_break (bool_of (member (codes "ok") v)) internal_bridge_error
    let result = unless_null (member (codes "result") v)
    let error = error_of (unless_null (member (codes "error") v))
    check (not (ok && is_some error)) internal_bridge_error
    check (not (not ok && not (is_some error))) internal_bridge_error
    check (not (not ok && is_some result)) internal_bridge_error
    parsed (record {
      version = or_empty (opt_string v (codes "protocol_version"));
      request_id = or_empty (opt_string v (codes "request_id"));
      command = opt_string v (codes "command");
      ok = ok;
      result = result;
      error = error;
      transaction_id = opt_string v (codes "transaction_id");
      bridge_version = or_empty (opt_string v (codes "bridge_version"));
      reaper_version = opt_string v (codes "reaper_version");
      started_at = opt_string v (codes "started_at");
      completed_at = opt_string v (codes "completed_at");
      warnings = items_of (member (codes "warnings") v);
      raw = v;
    })

  unfoldable pub value_or_empty : Option (Json F) → Json F
  value_or_empty none = obj no_entries
  value_or_empty (some v) = v

  unfoldable pub error_or_unspecified : Option (Failure F) → Outcome F
  error_or_unspecified none = local_error internal_bridge_error
  error_or_unspecified (some e) = bridge_error e

  unfoldable pub outcome_by : Bool → Option (Json F) → Option (Failure F) → Outcome F
  outcome_by true result error = value (value_or_empty result)
  outcome_by false result error = error_or_unspecified error

  unfoldable pub into_outcome : ResultEnvelope F → Outcome F
  into_outcome r = outcome_by r.ok r.result r.error

  unfoldable pub own_outcome : Text → Attempt (ResultEnvelope F) → Outcome F
  own_outcome id (broken c) = local_error c
  own_outcome id (parsed r) =
      if text_eq r.request_id id then into_outcome r else local_error internal_bridge_error

  -- `interpret_result`, of what the bytes parse to, if they do.
  unfoldable pub interpret : Text → Option (Json F) → Outcome F
  interpret id none = local_error internal_bridge_error
  interpret id (some doc) = own_outcome id (parse_result doc)
