-- ===== src/Ipc/Reply/Exchange.antt =====
-- The client of crates/reaper-ipc finds what the bridge puts into a result document. The text of
-- the documents and its parsing lie between and are not part of this.
use reapermcp.Qjson.Time.Iso8601.{iso8601_from_unix}
use reapermcp.Qjson.Json.{Json, insert, get, obj, arr, null, bool, str, int, float, JsonMap}
use reapermcp.Qjson.Json.Map.{text_eq_iff}
use reapermcp.Qjson.Json.Fields.{member, as_str, as_bool}
use reapermcp.Qjson.Json.Pretty.{serialize}
use reapermcp.Qjson.Floats.{Floats}
use reapermcp.Qjson.Utf8.{Text}
use reapermcp.Ipc.Failure.{wire, from_wire-wire}
use reapermcp.Ipc.Protocol.Envelope.{is_object, validate_envelope}
use reapermcp.Ipc.Request.{ExpectedProject, RequestEnvelope, build, to_json}
use reapermcp.Ipc.Request.Wire.{IsExpected, validated_of, build-accepted}
use reapermcp.Ipc.Result.{
  Outcome, ResultEnvelope, value, bridge_error, interpret, own_outcome, into_outcome, outcome_by,
  parse_result, check, or_break, bool_of, unless_null, error_of, items_of, value_or_empty,
  error_or_unspecified, is_some, parsed,
}
use reapermcp.Ipc.Reply.{
  Reply, Answer, answer, failure, reply, make_result, is_ok, result_field, error_field,
  text_or_null, published, envelope_of, transaction_id_of, max_result_bytes, too_large, document,
}
use reapermcp.Ipc.Protocol.{
  ErrorCode, ValidatedRequest, ValidationContext, accepted, opt_string, string_of,
}
use reapermcp.Prelude.Int.{ℤ}
use reapermcp.Prelude.{
  ℕ, Option, ◌≡◌, none, some, length, ltb, false, refl, ap, ◌∙◌, if◌then◌else◌, Bool-cases, inl, [],
  inr,
}

module _ {F : Type 0} where
  -- What the caller gets: null stands for the empty object.
  unfoldable pub outcome_of : Reply F → Outcome F
  outcome_of (answer v) = value (value_or_empty (unless_null (some v)))
  outcome_of (failure t e) = bridge_error e

  own :
      (id : Text) (r : ResultEnvelope F)
      → r.request_id ≡ id
      → own_outcome id (parsed r) ≡ into_outcome r
  unfolding own_outcome
  own id r h = rw ((text_eq_iff r.request_id id).1 h) refl

  -- The outcome of a result that the bridge makes for a request is what was put in: the value, with
  -- null as the empty object, or the error with its code and details.
  pub interpret-make_result :
      (bridge_version : Text) (duration : F) (now : ℤ) (id : Text) (command : Option Text)
      (r : Reply F) (transaction_id : Option Text) (started_at : Text)
      → interpret id
          (some (make_result bridge_version duration now id command r transaction_id started_at))
        ≡ outcome_of r
  unfolding make_result insert get member interpret parse_result check or_break bool_of as_bool
      opt_string string_of as_str is_object unless_null error_of items_of is_ok result_field
      error_field text_or_null into_outcome outcome_by outcome_of value_or_empty is_some
      error_or_unspecified wire
  interpret-make_result b d now id c (answer null) t s = own id _ refl
  interpret-make_result b d now id c (answer (bool x)) t s = own id _ refl
  interpret-make_result b d now id c (answer (int x)) t s = own id _ refl
  interpret-make_result b d now id c (answer (float x)) t s = own id _ refl
  interpret-make_result b d now id c (answer (str x)) t s = own id _ refl
  interpret-make_result b d now id c (answer (arr x)) t s = own id _ refl
  interpret-make_result b d now id c (answer (obj x)) t s = own id _ refl
  interpret-make_result b d now id c (failure m e) t s =
      own id _ refl ∙ ap bridge_error (from_wire-wire m e)

module _ (fs : Floats) (duration : fs.Float) (bridge_version : Text) where
  open fs use {Float}

  -- A document of moderate size is published as it is.
  published-small :
      (message : ℕ → Text) (now : ℤ) (id : Text) (doc : Json Float)
      → ltb max_result_bytes (length (serialize fs doc)) ≡ false
      → published fs duration bridge_version message now id doc ≡ doc
  unfolding published outcome_of
  published-small message now id doc h = rw h refl

  -- Whatever the size of a result, the client reads what was put in, or the error that says that
  -- it was too large.
  pub interpret-published :
      (message : ℕ → Text) (now : ℤ) (id : Text) (command : Option Text) (r : Reply Float)
      (transaction_id : Option Text) (started_at : Text)
      → let doc = make_result bridge_version duration now id command r transaction_id started_at in
        interpret id (some (published fs duration bridge_version message now id doc)) ≡ (
          if ltb max_result_bytes (length (serialize fs doc))
          then bridge_error (too_large (length (serialize fs doc)))
          else outcome_of r)
  unfolding published outcome_of
  interpret-published message now id command r t s =
      let doc = make_result bridge_version duration now id command r t s in
      elim (Bool-cases (ltb max_result_bytes (length (serialize fs doc)))) [
        | inl e ↦ rw e (
            interpret-make_result bridge_version duration now id _
              (failure (message (length (serialize fs doc)))
                (too_large (length (serialize fs doc))))
              none [])
        | inr e ↦ rw e (interpret-make_result bridge_version duration now id command r t s)
      ]

  module _ (note : ErrorCode → Text × JsonMap Float)
      (responder : ValidatedRequest Float → Answer Float) (message : ℕ → Text) where
    published_of : ℤ → Text → Option (Json Float) → Option (Json Float)
    published_of now id none = none
    published_of now id (some doc) = some (published fs duration bridge_version message now id doc)

    -- What is published for a file of the client, if anything is.
    unfoldable pub published_reply : ℤ → Text → Json Float → ValidationContext → Option (Json Float)
    unfolding published_of
    published_reply now id doc ctx =
        published_of now id
          (envelope_of fs duration bridge_version note responder now id (validate_envelope doc ctx))

    -- On the JSON documents themselves, before one is written as text and after it is read: for a
    -- request that the client built and the bridge expects, the client finds in the bridge's result
    -- document what the responder answered to the request's command, payload and project, provided
    -- the text of the result is not above the limit.
    pub exchange :
        (id secret cmd : Text) (payload : Json Float) (expected : Option ExpectedProject)
        (created expires now : ℤ) (r : RequestEnvelope Float) (ctx : ValidationContext)
        (a : Reply Float)
        → build id secret cmd payload expected created expires ≡ accepted r
        → IsExpected ctx id secret created expires
        → responder (validated_of id cmd r.payload expected expires) ≡ reply a
        → ltb max_result_bytes (
            length (
              serialize fs (
                make_result bridge_version duration now id
                  (some cmd)
                  a
                  (transaction_id_of (validated_of id cmd r.payload expected expires))
                  (iso8601_from_unix now))))
          ≡ false
        → interpret id (published_reply now id (to_json r) ctx) ≡ outcome_of a
    unfolding published_reply published_of envelope_of document
    exchange id secret cmd payload expected created expires now r ctx a h w answered small =
        rw (build-accepted id secret cmd payload expected created expires r ctx h w) (
          rw (document, answered)
            (interpret-published message now id (some cmd) a _ _ ∙ rw small refl))
