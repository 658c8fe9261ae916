-- ===== src/Ipc/Request/Wire.antt =====
-- A request that crates/reaper-ipc/src/envelope.rs builds, put to the checks of protocol.rs.
use reapermcp.Ipc.Request.Checks.{
  expiry_of-iso, created_ok-iso, version_ok-own, bridge_ok-none, stem_ok-own, token_ok-own,
}
use reapermcp.Ipc.Request.Fields.{fields, expected_of, expected_json}
use reapermcp.Ipc.Protocol.Steps.{
  behind, passed, require-then, or_refuse-then, accepted_inj, accepted-then,
}
use reapermcp.Ipc.Protocol.Envelope.{
  validate_envelope, validate_request, validate_body, size_ok, version_ok, bridge_ok, token_ok,
  stem_ok, expiry_of, created_ok, payload_of, project_of,
}
use reapermcp.Ipc.Request.{
  RequestEnvelope, ExpectedProject, build, to_json, object_payload, unless_empty, project_json,
}
use reapermcp.Qjson.Time.Iso8601.{iso8601_from_unix}
use reapermcp.Qjson.Time.Iso8601.RoundTrip.{year_of}
use reapermcp.Qjson.Json.{Json, obj, str, bool, int, float, arr, null}
use reapermcp.Ipc.Protocol.{
  ValidationContext, ValidatedRequest, accepted, holds, protocol_version, is_allowed_command,
  clock_skew_seconds, is_safe_id, malformed_request, max_request_id_len, unknown_command,
  invalid_instance_token, command_needs_project, or_empty,
}
use reapermcp.Prelude.Int.{ℤ, pos, ◌≤ℤ◌, ◌+ℤ◌, le-ltb_ℤ}
use reapermcp.Qjson.Utf8.{Text, encode}
use reapermcp.Prelude.{
  ◌≡◌, refl, ap, some, none, Option, true, false, arith, ◌∙◌, not, length, ◌==◌, subst,
}

-- What the bridge has to know of the client's request.
pub record IsExpected (ctx : ValidationContext) (id secret : Text) (created expires : ℤ)
    : Type 0 where
  pub installed : ctx.instance_token ≡ secret
  pub stem : ctx.request_id_hint ≡ some id
  pub fresh : holds ctx.seen id ≡ false
  pub size : size_ok ctx.raw_size ≡ true
  pub unexpired : ctx.now ≤ℤ expires +ℤ clock_skew_seconds
  pub created_from : pos 0 ≤ℤ year_of created
  pub created_to : year_of created ≤ℤ pos 9999
  pub expires_from : pos 0 ≤ℤ year_of expires
  pub expires_to : year_of expires ≤ℤ pos 9999

module _ {F : Type 0} where
  project_of-expected_json :
      (o : Option ExpectedProject)
      → project_of {F = F} (expected_json o) ≡ accepted (expected_json o)
  unfolding project_of project_json
  project_of-expected_json none = refl
  project_of-expected_json (some e) = refl

  payload_of-object_payload :
      (p q : Json F) → object_payload p ≡ accepted q → payload_of (some q) ≡ accepted q
  unfolding object_payload payload_of
  payload_of-object_payload null q h = rw (← accepted_inj h) refl
  payload_of-object_payload (obj m) q h = rw (← accepted_inj h) refl
  payload_of-object_payload (bool b) q h = absurd (grind (arith, h))
  payload_of-object_payload (int i) q h = absurd (grind (arith, h))
  payload_of-object_payload (float f) q h = absurd (grind (arith, h))
  payload_of-object_payload (str t) q h = absurd (grind (arith, h))
  payload_of-object_payload (arr l) q h = absurd (grind (arith, h))

  abbrev request_of :
      Text → Text → Text → Json F → Option ExpectedProject → ℤ → ℤ → RequestEnvelope F
  request_of id secret cmd body expected created expires = record {
    version = protocol_version;
    request_id = id;
    instance_token = secret;
    created_at = iso8601_from_unix created;
    expires_at = iso8601_from_unix expires;
    command = cmd;
    require_bridge_version = none;
    expected_project = unless_empty expected;
    payload = body;
  }

  -- What a request that was built has in it.
  record IsBuilt (id secret cmd : Text) (payload : Json F) (expected : Option ExpectedProject)
      (created expires : ℤ) (r : RequestEnvelope F) : Type 0 where
    safe : is_safe_id (encode id) max_request_id_len ≡ true
    allowed : is_allowed_command cmd ≡ true
    given : not (length secret == 0) ≡ true
    body : Json F
    object : object_payload payload ≡ accepted body
    same : request_of id secret cmd body expected created expires ≡ r

  build-IsBuilt :
      (id secret cmd : Text) (payload : Json F) (expected : Option ExpectedProject)
      (created expires : ℤ) (r : RequestEnvelope F)
      → build id secret cmd payload expected created expires ≡ accepted r
      → IsBuilt id secret cmd payload expected created expires r
  unfolding build
  build-IsBuilt id secret cmd payload expected created expires r h =
      let (safe, h1) = passed _ malformed_request h in
      let (allowed, h2) = passed _ unknown_command h1 in
      let (given, h3) = passed _ invalid_instance_token h2 in
      let (body, object, h4) = behind (object_payload payload) h3 in
      record {
        safe = safe;
        allowed = allowed;
        given = given;
        body = body;
        object = object;
        same = accepted_inj h4;
      }

  abbrev pub validated_of : Text → Text → Json F → Option ExpectedProject → ℤ → ValidatedRequest F
  validated_of id cmd body expected expires = record {
    request_id = id;
    command = cmd;
    expires_unix = expires;
    payload = body;
    expected_project = expected_json (unless_empty expected);
    needs_project = command_needs_project cmd;
  }

  request_of-accepted :
      (id secret cmd : Text) (payload body : Json F) (expected : Option ExpectedProject)
      (created expires : ℤ) (ctx : ValidationContext)
      → is_safe_id (encode id) max_request_id_len ≡ true
      → is_allowed_command cmd ≡ true
      → not (length secret == 0) ≡ true
      → object_payload payload ≡ accepted body
      → IsExpected ctx id secret created expires
      → validate_envelope (to_json (request_of id secret cmd body expected created expires)) ctx
        ≡ accepted (validated_of id cmd body expected expires)
  unfolding validate_envelope validate_request validate_body
  request_of-accepted id secret cmd payload body expected created expires ctx safe allowed given
        object w =
      let f = fields (request_of id secret cmd body expected created expires) in
      require-then _ _ w.size
      ∙ require-then _ _ f.object
      ∙ require-then _ _ (ap version_ok f.version ∙ version_ok-own)
      ∙ require-then _ _ (ap (λ o. bridge_ok o ctx.bridge_version) f.bridge ∙ bridge_ok-none _)
      ∙ require-then _ _ (
          ap (λ o. token_ok (or_empty o) ctx.instance_token) f.instance_token
          ∙ ap (token_ok secret) w.installed
          ∙ token_ok-own secret given)
      ∙ rw f.request_id (
          require-then _ _ safe
          ∙ require-then _ _ (ap (stem_ok id) w.stem ∙ stem_ok-own id)
          ∙ require-then _ _ (ap not w.fresh)
          ∙ accepted-then _
              (ap expiry_of f.expires_at ∙ expiry_of-iso expires w.expires_from w.expires_to)
          ∙ require-then _ _ (ap not (le-ltb_ℤ (expires +ℤ clock_skew_seconds) ctx.now w.unexpired))
          ∙ require-then _ _
              (ap created_ok f.created_at ∙ created_ok-iso created w.created_from w.created_to)
          ∙ or_refuse-then _ _ f.command
          ∙ require-then _ _ allowed
          ∙ accepted-then _
              (ap payload_of f.payload ∙ payload_of-object_payload payload body object)
          ∙ accepted-then _ (
              ap project_of (
                expected_of (request_of id secret cmd body expected created expires) none
                  (unless_empty expected))
              ∙ project_of-expected_json (unless_empty expected)))

  -- A request that the client builds is accepted by the bridge, and what the bridge takes from it is
  -- what the client put in: the bridge has the client's token, knows the id from the file's name
  -- and has not seen it, the file is not too large, the request has not expired by more than the
  -- clock skew, and its two moments are in the years 0 to 9999.
  pub build-accepted :
      (id secret cmd : Text) (payload : Json F) (expected : Option ExpectedProject)
      (created expires : ℤ) (r : RequestEnvelope F) (ctx : ValidationContext)
      → build id secret cmd payload expected created expires ≡ accepted r
      → IsExpected ctx id secret created expires
      → validate_envelope (to_json r) ctx
        ≡ accepted (validated_of id cmd r.payload expected expires)
  build-accepted id secret cmd payload expected created expires r ctx h w =
      let b = build-IsBuilt id secret cmd payload expected created expires r h in
      subst
        (λ (r : RequestEnvelope F).
          validate_envelope (to_json r) ctx
          ≡ accepted (validated_of id cmd r.payload expected expires))
        b.same
        (request_of-accepted id secret cmd payload b.body expected created expires ctx b.safe
          b.allowed b.given b.object w)
