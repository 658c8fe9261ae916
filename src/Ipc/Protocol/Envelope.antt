-- ===== src/Ipc/Protocol/Envelope.antt =====
-- `validate_envelope` of crates/reaper-ipc/src/protocol.rs: the sixteen checks in their order.
use reapermcp.Qjson.Json.Fields.{member}
use reapermcp.Qjson.Time.Iso8601.{parse_iso8601}
use reapermcp.Ipc.Protocol.{
  refused, ◌>>=◌, ◌>>◌, Verdict, ValidationContext, accepted, ValidatedRequest, malformed_request,
  or_refuse, require, opt_string, is_safe_id, payload_too_large, max_request_bytes,
  protocol_version, tokens_equal, is_allowed_command, max_request_id_len, ipc_protocol_mismatch,
  unknown_command, holds, bridge_version_mismatch, duplicate_request, or_empty,
  command_needs_project, invalid_instance_token, clock_skew_seconds, expired_request,
}
use reapermcp.Prelude.Int.{ℤ, ltb_ℤ, ◌+ℤ◌}
use reapermcp.Qjson.Utf8.{Text, encode}
use reapermcp.Qjson.Json.{Json, obj, no_entries, text_eq, null}
use reapermcp.Prelude.{
  Option, ℕ, Bool, true, false, not, some, length, leb, none, ◌==◌, codes, ◌&&◌,
}

-- 1. file size
unfoldable pub size_ok : Option ℕ → Bool
size_ok none = true
size_ok (some size) = leb size max_request_bytes

-- 3. the body is an object
unfoldable pub is_object : {F : Type 0} → Json F → Bool
is_object (obj m) = true
is_object _ = false

-- 4. protocol_version
unfoldable pub version_ok : Option Text → Bool
version_ok none = false
version_ok (some v) = text_eq v protocol_version

-- 5. require_bridge_version
unfoldable pub bridge_ok : Option Text → Text → Bool
bridge_ok none version = true
bridge_ok (some want) version = text_eq want version

-- 6. instance_token
unfoldable pub token_ok : Text → Text → Bool
token_ok token configured =
    not (length token == 0)
    && not (length configured == 0)
    && tokens_equal (encode token) (encode configured)

-- 8. request_id equals the filename stem
unfoldable pub stem_ok : Text → Option Text → Bool
stem_ok rid none = true
stem_ok rid (some stem) = text_eq rid stem

-- 10. expires_at present and parseable
unfoldable pub expiry_of : Option Text → Verdict ℤ
expiry_of none = refused malformed_request
expiry_of (some t) = or_refuse (parse_iso8601 (encode t)) malformed_request

-- 12. created_at parseable when present
unfoldable pub created_ok : Option Text → Bool
created_ok none = true
created_ok (some t) = is_some (parse_iso8601 (encode t))
  where
    is_some : Option ℤ → Bool
    is_some none = false
    is_some (some z) = true

-- 15. payload is an object or null
unfoldable pub payload_of : {F : Type 0} → Option (Json F) → Verdict (Json F)
payload_of none = accepted (obj no_entries)
payload_of (some null) = accepted (obj no_entries)
payload_of (some (obj m)) = accepted (obj m)
payload_of (some _) = refused malformed_request

-- 16. expected_project is an object or null
unfoldable pub project_of : {F : Type 0} → Option (Json F) → Verdict (Option (Json F))
project_of none = accepted none
project_of (some null) = accepted none
project_of (some (obj m)) = accepted (some (obj m))
project_of (some _) = refused malformed_request

module _ {F : Type 0} where
  -- Checks 13 to 16 and the result.
  unfoldable pub validate_body : Json F → Text → ℤ → Verdict (ValidatedRequest F)
  validate_body req rid exp = do
    cmd ← or_refuse (opt_string req (codes "command")) malformed_request
    require (is_allowed_command cmd) unknown_command
    payload ← payload_of (member (codes "payload") req)
    expected ← project_of (member (codes "expected_project") req)
    accepted (record {
      request_id = rid;
      command = cmd;
      expires_unix = exp;
      payload = payload;
      expected_project = expected;
      needs_project = command_needs_project cmd;
    })

  -- Checks 7 to 12, of the `request_id` that was read.
  unfoldable pub validate_request : Text → Json F → ValidationContext → Verdict (ValidatedRequest F)
  validate_request rid req ctx = do
    require (is_safe_id (encode rid) max_request_id_len) malformed_request
    require (stem_ok rid ctx.request_id_hint) malformed_request
    require (not (holds ctx.seen rid)) duplicate_request
    exp ← expiry_of (opt_string req (codes "expires_at"))
    require (not (ltb_ℤ (exp +ℤ clock_skew_seconds) ctx.now)) expired_request
    require (created_ok (opt_string req (codes "created_at"))) malformed_request
    validate_body req rid exp

  unfoldable pub validate_envelope : Json F → ValidationContext → Verdict (ValidatedRequest F)
  validate_envelope req ctx = do
    require (size_ok ctx.raw_size) payload_too_large
    require (is_object req) malformed_request
    require (version_ok (opt_string req (codes "protocol_version"))) ipc_protocol_mismatch
    require (bridge_ok (opt_string req (codes "require_bridge_version")) ctx.bridge_version)
        bridge_version_mismatch
    require (token_ok (or_empty (opt_string req (codes "instance_token"))) ctx.instance_token)
        invalid_instance_token
    validate_request (or_empty (opt_string req (codes "request_id"))) req ctx
