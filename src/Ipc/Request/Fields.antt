-- ===== src/Ipc/Request/Fields.antt =====
-- The fields of a request of crates/reaper-ipc/src/envelope.rs as protocol.rs reads them.
use reapermcp.Ipc.Protocol.Envelope.{is_object}
use reapermcp.Ipc.Request.{
  RequestEnvelope, ExpectedProject, to_json, put_text, put_project, project_json,
}
use reapermcp.Qjson.Json.{Json, get, insert}
use reapermcp.Qjson.Json.Fields.{member, as_str}
use reapermcp.Ipc.Protocol.{opt_string, string_of}
use reapermcp.Qjson.Utf8.{Text}
use reapermcp.Prelude.{◌≡◌, refl, some, none, Option, true, codes, arith}

module _ {F : Type 0} where
  -- The fields of the envelope, as the bridge reads them.
  pub record HasFields (j : Json F) (r : RequestEnvelope F) : Type 0 where
    pub object : is_object j ≡ true
    pub version : opt_string j (codes "protocol_version") ≡ some r.version
    pub request_id : opt_string j (codes "request_id") ≡ some r.request_id
    pub instance_token : opt_string j (codes "instance_token") ≡ some r.instance_token
    pub created_at : opt_string j (codes "created_at") ≡ some r.created_at
    pub expires_at : opt_string j (codes "expires_at") ≡ some r.expires_at
    pub command : opt_string j (codes "command") ≡ some r.command
    pub bridge : opt_string j (codes "require_bridge_version") ≡ r.require_bridge_version
    pub payload : member (codes "payload") j ≡ some r.payload

  -- The two optional fields, then the rest.
  fields_of :
      (r : RequestEnvelope F) (bridge : Option Text) (expected : Option ExpectedProject)
      → HasFields
          (to_json (record r { require_bridge_version = bridge; expected_project = expected }))
          (record r { require_bridge_version = bridge; expected_project = expected })
  unfolding to_json put_text put_project opt_string string_of member get insert as_str is_object
  fields_of r none none = ground arith
  fields_of r none (some x) = ground arith
  fields_of r (some b) none = ground arith
  fields_of r (some b) (some x) = ground arith

  pub fields : (r : RequestEnvelope F) → HasFields (to_json r) r
  fields r = fields_of r r.require_bridge_version r.expected_project

  -- `expected_project` as the bridge reads it.
  abbrev pub expected_json : Option ExpectedProject → Option (Json F)
  expected_json none = none
  expected_json (some e) = some (project_json e)

  pub expected_of :
      (r : RequestEnvelope F) (bridge : Option Text) (expected : Option ExpectedProject)
      → member
          (codes "expected_project")
          (to_json (record r { require_bridge_version = bridge; expected_project = expected }))
        ≡ expected_json expected
  unfolding to_json put_text put_project member get insert
  expected_of r none none = refl
  expected_of r none (some x) = refl
  expected_of r (some b) none = refl
  expected_of r (some b) (some x) = refl
