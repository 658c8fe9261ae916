-- ===== src/Ipc/Failure.antt =====
-- `IpcError` of crates/reaper-ipc/src/error.rs. Its message is an argument where it is written out
-- and is left out elsewhere; its details, always an object, are the map of their fields.
use reapermcp.Qjson.Json.{Json, JsonMap, insert, get, no_entries, obj, str, null}
use reapermcp.Qjson.Json.Fields.{member, as_str}
use reapermcp.Qjson.Utf8.{Text}
use reapermcp.Ipc.Protocol.{
  ErrorCode, opt_string, string_of, payload_too_large, malformed_request, ipc_protocol_mismatch,
  bridge_version_mismatch, invalid_instance_token, duplicate_request, expired_request,
  unknown_command, bridge_offline,
}
use reapermcp.Prelude.{Option, none, some, codes, ◌≡◌, refl}

abbrev pub internal_bridge_error : Text
internal_bridge_error = codes "INTERNAL_BRIDGE_ERROR"

abbrev pub result_too_large : Text
result_too_large = codes "RESULT_TOO_LARGE"

pub record Failure (F : Type 0) : Type 0 where
  pub code : Text
  pub details : JsonMap F

-- The texts of the codes.
unfoldable pub code_text : ErrorCode → Text
code_text payload_too_large = codes "PAYLOAD_TOO_LARGE"
code_text malformed_request = codes "MALFORMED_REQUEST"
code_text ipc_protocol_mismatch = codes "IPC_PROTOCOL_MISMATCH"
code_text bridge_version_mismatch = codes "BRIDGE_VERSION_MISMATCH"
code_text invalid_instance_token = codes "INVALID_INSTANCE_TOKEN"
code_text duplicate_request = codes "DUPLICATE_REQUEST"
code_text expired_request = codes "EXPIRED_REQUEST"
code_text unknown_command = codes "UNKNOWN_COMMAND"
code_text bridge_offline = codes "BRIDGE_OFFLINE"

-- `unwrap_or`
abbrev pub text_or : Text → Option Text → Text
text_or d none = d
text_or d (some t) = t

module _ {F : Type 0} where
  unfoldable pub wrapped : Json F → JsonMap F
  wrapped v = (insert (codes "value") v no_entries).0

  -- The details of `with_details`.
  unfoldable pub details_of : Json F → JsonMap F
  details_of (obj m) = m
  details_of v = wrapped v

  -- `match obj.get("details")`
  unfoldable pub wire_details : Option (Json F) → JsonMap F
  wire_details none = no_entries
  wire_details (some null) = no_entries
  wire_details (some v) = details_of v

  unfoldable pub from_object : Json F → Failure F
  from_object v = record {
    code = text_or internal_bridge_error (opt_string v (codes "code"));
    details = wire_details (member (codes "details") v);
  }

  unfoldable pub from_wire : Json F → Failure F
  from_wire (obj m) = from_object (obj m)
  from_wire v = record { code = internal_bridge_error; details = details_of v }

  -- `IpcError::to_json`
  unfoldable pub wire : Text → Failure F → Json F
  wire message e =
      let m = (insert (codes "code") (str e.code) no_entries).0 in
      let m = (insert (codes "message") (str message) m).0 in
      obj (insert (codes "details") (obj e.details) m).0

  -- An error that is written out is read back with its code and details.
  pub from_wire-wire : (message : Text) (e : Failure F) → from_wire (wire message e) ≡ e
  unfolding from_wire from_object wire wire_details details_of opt_string string_of member as_str
      insert get
  from_wire-wire message e = refl
