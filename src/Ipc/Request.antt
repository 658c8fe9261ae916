-- ===== src/Ipc/Request.antt =====
-- The request envelopes of crates/reaper-ipc/src/envelope.rs: `ExpectedProject`,
-- `RequestEnvelope::build` and `to_json`. An error is its code.
pub mod Fields
pub mod Checks
pub mod Wire
use reapermcp.Qjson.Json.{Json, JsonMap, insert, no_entries, obj, null, str, int}
use reapermcp.Qjson.Time.Iso8601.{iso8601_from_unix}
use reapermcp.Qjson.Utf8.{Text, encode}
use reapermcp.Ipc.Protocol.{
  ◌>>=◌, ◌>>◌, Verdict, accepted, refused, require, is_safe_id, max_request_id_len,
  is_allowed_command, protocol_version, malformed_request, unknown_command, invalid_instance_token,
}
use reapermcp.Prelude.Int.{ℤ}
use reapermcp.Prelude.{Option, Bool, none, some, codes, length, not, true, false, ◌&&◌, ◌==◌}

pub record ExpectedProject : Type 0 where
  pub project_uuid : Option Text
  pub state_change_count : Option ℤ
  pub source_item_guid : Option Text
  pub source_take_guid : Option Text
  pub midi_hash : Option Text
  pub tempo_map_hash : Option Text
  pub snapshot_hash : Option Text

pub record RequestEnvelope (F : Type 0) : Type 0 where
  pub version : Text
  pub request_id : Text
  pub instance_token : Text
  pub created_at : Text
  pub expires_at : Text
  pub command : Text
  pub require_bridge_version : Option Text
  pub expected_project : Option ExpectedProject
  pub payload : Json F

unfoldable pub is_none : {A : Type 0} → Option A → Bool
is_none none = true
is_none (some a) = false

unfoldable pub is_empty : ExpectedProject → Bool
is_empty e =
    is_none e.project_uuid
    && is_none e.state_change_count
    && is_none e.source_item_guid
    && is_none e.source_take_guid
    && is_none e.midi_hash
    && is_none e.tempo_map_hash
    && is_none e.snapshot_hash

-- `expected.filter(|e| !e.is_empty()).cloned()`
unfoldable pub unless_empty : Option ExpectedProject → Option ExpectedProject
unless_empty none = none
unless_empty (some e) = elim (is_empty e) [ true ↦ none | false ↦ some e ]

module _ {F : Type 0} where
  unfoldable pub put_text : Text → Option Text → JsonMap F → JsonMap F
  put_text k none m = m
  put_text k (some t) m = (insert k (str t) m).0

  unfoldable pub put_int : Text → Option ℤ → JsonMap F → JsonMap F
  put_int k none m = m
  put_int k (some z) m = (insert k (int z) m).0

  unfoldable pub project_json : ExpectedProject → Json F
  project_json e = obj (
      put_text (codes "snapshot_hash") e.snapshot_hash (
        put_text (codes "tempo_map_hash") e.tempo_map_hash (
          put_text (codes "midi_hash") e.midi_hash (
            put_text (codes "source_take_guid") e.source_take_guid (
              put_text (codes "source_item_guid") e.source_item_guid (
                put_int (codes "state_change_count") e.state_change_count
                  (put_text (codes "project_uuid") e.project_uuid no_entries)))))))

  -- A payload is an object, or null for the empty one.
  unfoldable pub object_payload : Json F → Verdict (Json F)
  object_payload null = accepted (obj no_entries)
  object_payload (obj m) = accepted (obj m)
  object_payload _ = refused malformed_request

  unfoldable pub build :
      Text → Text → Text → Json F → Option ExpectedProject → ℤ → ℤ → Verdict (RequestEnvelope F)
  build request_id instance_token command payload expected created_unix expires_unix = do
    require (is_safe_id (encode request_id) max_request_id_len) malformed_request
    require (is_allowed_command command) unknown_command
    require (not (length instance_token == 0)) invalid_instance_token
    payload' ← object_payload payload
    accepted (record {
      version = protocol_version;
      request_id = request_id;
      instance_token = instance_token;
      created_at = iso8601_from_unix created_unix;
      expires_at = iso8601_from_unix expires_unix;
      command = command;
      require_bridge_version = none;
      expected_project = unless_empty expected;
      payload = payload';
    })

  unfoldable pub put_project : Option ExpectedProject → JsonMap F → JsonMap F
  put_project none m = m
  put_project (some e) m = (insert (codes "expected_project") (project_json e) m).0

  unfoldable pub to_json : RequestEnvelope F → Json F
  to_json r =
      let m = (insert (codes "protocol_version") (str r.version) no_entries).0 in
      let m = (insert (codes "request_id") (str r.request_id) m).0 in
      let m = (insert (codes "instance_token") (str r.instance_token) m).0 in
      let m = (insert (codes "created_at") (str r.created_at) m).0 in
      let m = (insert (codes "expires_at") (str r.expires_at) m).0 in
      let m = (insert (codes "command") (str r.command) m).0 in
      let m = put_text (codes "require_bridge_version") r.require_bridge_version m in
      let m = put_project r.expected_project m in obj (insert (codes "payload") r.payload m).0
