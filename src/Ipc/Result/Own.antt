-- ===== src/Ipc/Result/Own.antt =====
-- Which results the client of crates/reaper-ipc hands to its caller as a value.
use reapermcp.Qjson.Json.{Json, text_eq}
use reapermcp.Qjson.Json.Map.{text_eq_iff}
use reapermcp.Qjson.Json.Fields.{member}
use reapermcp.Qjson.Utf8.{Text}
use reapermcp.Ipc.Protocol.Envelope.{is_object}
use reapermcp.Ipc.Protocol.{opt_string, or_empty, protocol_version, ipc_protocol_mismatch}
use reapermcp.Ipc.Failure.{Failure, internal_bridge_error, code_text}
use reapermcp.Ipc.Result.Steps.{behind, passed, or_break-some}
use reapermcp.Ipc.Result.{
  Attempt, Outcome, ResultEnvelope, parsed, broken, value, local_error, bridge_error, or_break,
  is_some, bool_of, unless_null, error_of, value_or_empty, error_or_unspecified, into_outcome,
  own_outcome, interpret, parse_result, outcome_by,
}
use reapermcp.Prelude.{
  Option, Bool, ◌≡◌, ◌≢◌, none, some, codes, true, false, not, ◌&&◌, refl, ap, arith, ◌∙◌, sym,
  if◌then◌else◌, subst,
}

module _ {F : Type 0} where
  content : ResultEnvelope F → Attempt (ResultEnvelope F) → ResultEnvelope F
  content d (parsed r) = r
  content d (broken c) = d

  parsed_inj :
      (r s : ResultEnvelope F) → Path (Attempt (ResultEnvelope F)) (parsed r) (parsed s) → r ≡ s
  unfolding content
  parsed_inj r s h = ap (content r) h

  -- The result of this request, successful, with the value.
  pub record IsOwn (doc : Json F) (id : Text) (v : Json F) : Type 0 where
    pub object : is_object doc ≡ true
    pub version : or_empty (opt_string doc (codes "protocol_version")) ≡ protocol_version
    pub request_id : or_empty (opt_string doc (codes "request_id")) ≡ id
    pub ok : bool_of (member (codes "ok") doc) ≡ some true
    pub no_error : unless_null (member (codes "error") doc) ≡ none
    pub result : v ≡ value_or_empty (unless_null (member (codes "result") doc))

  -- What `parse_result` has made sure of.
  record IsParsed (doc : Json F) (r : ResultEnvelope F) : Type 0 where
    object : is_object doc ≡ true
    version : text_eq (or_empty (opt_string doc (codes "protocol_version"))) protocol_version ≡ true
    ok : bool_of (member (codes "ok") doc) ≡ some r.ok
    one : not (r.ok && is_some (error_of (unless_null (member (codes "error") doc)))) ≡ true
    result : r.result ≡ unless_null (member (codes "result") doc)
    request_id : r.request_id ≡ or_empty (opt_string doc (codes "request_id"))

  parse_result-IsParsed :
      (doc : Json F) (r : ResultEnvelope F) → parse_result doc ≡ parsed r → IsParsed doc r
  unfolding parse_result
  parse_result-IsParsed doc r h =
      let (object, h1) = passed (is_object doc) internal_bridge_error h in
      let (version, h2) = passed _ (code_text ipc_protocol_mismatch) h1 in
      let (ok, present, h3) =
        behind (or_break (bool_of (member (codes "ok") doc)) internal_bridge_error) h2 in
      let (one, h4) = passed _ internal_bridge_error h3 in
      let (_, h5) = passed _ internal_bridge_error h4 in
      let (_, h6) = passed _ internal_bridge_error h5 in
      let same = parsed_inj _ r h6 in
      record {
        object = object;
        version = version;
        ok = or_break-some _ _ present ∙ ap some (ap (λ (r : ResultEnvelope F). r.ok) same);
        one =
            subst
              (λ b. not (b && is_some (error_of (unless_null (member (codes "error") doc)))) ≡ true)
              (ap (λ (r : ResultEnvelope F). r.ok) same) one;
        result = sym (ap (λ (r : ResultEnvelope F). r.result) same);
        request_id = sym (ap (λ (r : ResultEnvelope F). r.request_id) same);
      }

  no_error_of : (o : Option (Json F)) → not (true && is_some (error_of o)) ≡ true → o ≡ none
  unfolding error_of is_some
  no_error_of none h = refl
  no_error_of (some v) h = absurd (ground (arith, h))

  the_value : Json F → Outcome F → Json F
  the_value d (value v) = v
  the_value d (bridge_error e) = d
  the_value d (local_error c) = d

  value_inj : (v w : Json F) → Path (Outcome F) (value v) (value w) → v ≡ w
  unfolding the_value
  value_inj v w h = ap (the_value v) h

  no_value : (o : Option (Failure F)) (v : Json F) → error_or_unspecified o ≢ value v
  unfolding error_or_unspecified
  no_value none v h = grind (arith, h)
  no_value (some e) v h = grind (arith, h)

  outcome_by-value :
      (ok : Bool) (result : Option (Json F)) (error : Option (Failure F)) (v : Json F)
      → outcome_by ok result error ≡ value v
      → (ok ≡ true) × (v ≡ value_or_empty result)
  unfolding outcome_by
  outcome_by-value true result error v h = (refl, sym (value_inj _ v h))
  outcome_by-value false result error v h = absurd (no_value error v h)

  if-value :
      (t : Bool) (o : Outcome F) (c : Text) (v : Json F)
      → (if t then o else local_error c) ≡ value v
      → (t ≡ true) × (o ≡ value v)
  if-value true o c v h = (refl, h)
  if-value false o c v h = absurd (grind (arith, h))

  own_outcome-value :
      (id : Text) (a : Attempt (ResultEnvelope F)) (v : Json F)
      → own_outcome id a ≡ value v
      → (r : ResultEnvelope F) × (a ≡ parsed r)
        × (r.request_id ≡ id)
        × (r.ok ≡ true)
        × (v ≡ value_or_empty r.result)
  unfolding own_outcome into_outcome
  own_outcome-value id (broken c) v h = absurd (grind (arith, h))
  own_outcome-value id (parsed r) v h =
      let (own, h1) = if-value (text_eq r.request_id id) _ _ v h in
      let (ok, same) = outcome_by-value r.ok r.result r.error v h1 in
      (r, refl, (text_eq_iff r.request_id id).0 own, ok, same)

  -- A value that the caller gets is the result of a document that declares the protocol's version
  -- and this request's id, that says ok and carries no error; no result stands for the empty object.
  pub interpret-IsOwn :
      (id : Text) (o : Option (Json F)) (v : Json F)
      → interpret id o ≡ value v
      → (doc : Json F) × (o ≡ some doc) × IsOwn doc id v
  unfolding interpret
  interpret-IsOwn id none v h = absurd (grind (arith, h))
  interpret-IsOwn id (some doc) v h =
      let (r, is_parsed, own, ok, same) = own_outcome-value id (parse_result doc) v h in
      let p = parse_result-IsParsed doc r is_parsed in
      (
        doc,
        refl,
        record {
          object = p.object;
          version = (text_eq_iff _ protocol_version).0 p.version;
          request_id = sym p.request_id ∙ own;
          ok = p.ok ∙ ap some ok;
          no_error = no_error_of _ (
              subst
                (λ b.
                  not (b && is_some (error_of (unless_null (member (codes "error") doc)))) ≡ true)
                ok p.one);
          result = same ∙ ap value_or_empty p.result;
        },
      )
