-- ===== src/Ipc/Protocol/Accepts.antt =====
-- What `validate_envelope` of crates/reaper-ipc/src/protocol.rs has made sure of.
use reapermcp.Ipc.Protocol.Steps.{behind, passed, accepted_inj}
use mathlib.Core.Option.{some-injective}
use reapermcp.Qjson.Json.Map.{text_eq_iff}
use reapermcp.Qjson.Json.Fields.{member}
use reapermcp.Ipc.Protocol.Envelope.{
  validate_body, stem_ok, validate_request, expiry_of, payload_of, project_of, version_ok, token_ok,
  validate_envelope, size_ok, is_object,
}
use reapermcp.Prelude.Int.{◌≤ℤ◌, ◌+ℤ◌, ℤ, ltb_ℤ, ltb_ℤ-le}
use reapermcp.Qjson.Utf8.{encode, Text}
use reapermcp.Prelude.Decimal.{Bytes}
use reapermcp.Qjson.Json.{Json}
use reapermcp.Prelude.{
  Bool, ◌≡◌, arith, true, length, refl, and_parts, ◌==◌, false, codes, some, ◌≢◌, [], ◌∷◌, ap₂,
  ==_iff, ap, not, subst, sym, Option, ◌∙◌, ◌&&◌, none,
}
use reapermcp.Ipc.Protocol.{
  accepted, no_difference, tokens_equal, ValidationContext, ValidatedRequest, opt_string,
  protocol_version, or_empty, is_safe_id, max_request_id_len, holds, clock_skew_seconds, commands,
  is_allowed_command, malformed_request, duplicate_request, or_refuse, unknown_command,
  expired_request, payload_too_large, ipc_protocol_mismatch, bridge_version_mismatch,
  invalid_instance_token,
}

no_difference-eq : (a b : Bytes) → (length a == length b) ≡ true → no_difference a b ≡ true → a ≡ b
unfolding no_difference
no_difference-eq [] [] h d = refl
no_difference-eq [] (y ∷ ys) h d = absurd (ground (arith, h))
no_difference-eq (x ∷ xs) [] h d = absurd (ground (arith, h))
no_difference-eq (x ∷ xs) (y ∷ ys) h d =
    let (e, r) = and_parts (x == y) _ d in
    ap₂ ◌∷◌ ((==_iff x y).0 e) (no_difference-eq xs ys (ground (arith, h)) r)

-- Tokens that are found equal are equal, byte for byte.
pub tokens_equal-eq : (a b : Bytes) → tokens_equal a b ≡ true → a ≡ b
unfolding tokens_equal
tokens_equal-eq a b h =
    let (l, d) = and_parts (length a == length b) _ h in no_difference-eq a b l d

-- What is known of a request that was accepted.
pub record IsAccepted {F : Type 0} (req : Json F) (ctx : ValidationContext) (v : ValidatedRequest F)
    : Type 0 where
  pub version : opt_string req (codes "protocol_version") ≡ some protocol_version
  pub token :
      encode (or_empty (opt_string req (codes "instance_token"))) ≡ encode ctx.instance_token
  pub configured : ctx.instance_token ≢ []
  pub id : v.request_id ≡ or_empty (opt_string req (codes "request_id"))
  pub safe : is_safe_id (encode v.request_id) max_request_id_len ≡ true
  pub stem : (t : Text) → ctx.request_id_hint ≡ some t → v.request_id ≡ t
  pub fresh : holds ctx.seen v.request_id ≡ false
  pub unexpired : ctx.now ≤ℤ v.expires_unix +ℤ clock_skew_seconds
  pub allowed : holds commands v.command ≡ true

module _ {F : Type 0} where
  validate_body-accepts :
      (req : Json F) (rid : Text) (exp : ℤ) (v : ValidatedRequest F)
      → validate_body req rid exp ≡ accepted v
      → (v.request_id ≡ rid) × (v.expires_unix ≡ exp) × (holds commands v.command ≡ true)
  unfolding validate_body is_allowed_command
  validate_body-accepts req rid exp v h =
      let (cmd, _, h1) =
        behind (or_refuse (opt_string req (codes "command")) malformed_request) h in
      let (ok, h2) = passed (is_allowed_command cmd) unknown_command h1 in
      let (payload, _, h3) = behind (payload_of (member (codes "payload") req)) h2 in
      let (expected, _, h4) = behind (project_of (member (codes "expected_project") req)) h3 in
      rw (← accepted_inj h4) (refl, refl, ok)

  -- What checks 7 to 11 add to it.
  record IsChecked (rid : Text) (ctx : ValidationContext) (v : ValidatedRequest F) : Type 0 where
    id : v.request_id ≡ rid
    safe : is_safe_id (encode rid) max_request_id_len ≡ true
    stem : stem_ok rid ctx.request_id_hint ≡ true
    fresh : not (holds ctx.seen rid) ≡ true
    unexpired : not (ltb_ℤ (v.expires_unix +ℤ clock_skew_seconds) ctx.now) ≡ true
    allowed : holds commands v.command ≡ true

  validate_request-accepts :
      (rid : Text) (req : Json F) (ctx : ValidationContext) (v : ValidatedRequest F)
      → validate_request rid req ctx ≡ accepted v
      → IsChecked rid ctx v
  unfolding validate_request
  validate_request-accepts rid req ctx v h =
      let (safe, h1) = passed _ malformed_request h in
      let (stem, h2) = passed _ malformed_request h1 in
      let (fresh, h3) = passed _ duplicate_request h2 in
      let (exp, _, h4) = behind (expiry_of (opt_string req (codes "expires_at"))) h3 in
      let (unexpired, h5) = passed _ expired_request h4 in
      let (_, h6) = passed _ malformed_request h5 in
      let (id, same, allowed) = validate_body-accepts req rid exp v h6 in
      record {
        id = id;
        safe = safe;
        stem = stem;
        fresh = fresh;
        unexpired =
            subst (λ z. not (ltb_ℤ (z +ℤ clock_skew_seconds) ctx.now) ≡ true) (sym same) unexpired;
        allowed = allowed;
      }

version_ok-eq : (o : Option Text) → version_ok o ≡ true → o ≡ some protocol_version
unfolding version_ok
version_ok-eq none h = absurd (ground (arith, h))
version_ok-eq (some v) h = ap some ((text_eq_iff v protocol_version).0 h)

stem_ok-eq :
    (rid : Text) (hint : Option Text) (t : Text) → stem_ok rid hint ≡ true → hint ≡ some t → rid ≡ t
unfolding stem_ok
stem_ok-eq rid none t h e = absurd (grind (arith, e))
stem_ok-eq rid (some stem) t h e = (text_eq_iff rid stem).0 h ∙ some-injective stem t e

token_ok-eq :
    (token configured : Text)
    → token_ok token configured ≡ true
    → (encode token ≡ encode configured) × (configured ≢ [])
unfolding token_ok
token_ok-eq token configured h =
    let (both, same) = and_parts (not (length token == 0) && not (length configured == 0)) _ h in
    let (_, given) = and_parts (not (length token == 0)) _ both in
    (tokens_equal-eq (encode token) (encode configured) same, nonempty configured given)
  where
    nonempty : (t : Text) → not (length t == 0) ≡ true → t ≢ []
    nonempty [] h e = absurd (ground (arith, h))
    nonempty (c ∷ t) h e = absurd (grind (arith, e))

-- A request that is accepted has the protocol's version, the configured token, which is not empty, a
-- safe id that is that of the file and was not seen before, has not expired by more than the clock
-- skew, and its command is on the list.
pub validate_envelope-IsAccepted :
    {F : Type 0} (req : Json F) (ctx : ValidationContext) (v : ValidatedRequest F)
    → validate_envelope req ctx ≡ accepted v
    → IsAccepted req ctx v
unfolding validate_envelope
validate_envelope-IsAccepted req ctx v h =
    let rid = or_empty (opt_string req (codes "request_id")) in
    let (_, h1) = passed (size_ok ctx.raw_size) payload_too_large h in
    let (_, h2) = passed (is_object req) malformed_request h1 in
    let (version, h3) = passed _ ipc_protocol_mismatch h2 in
    let (_, h4) = passed _ bridge_version_mismatch h3 in
    let (token, h5) = passed _ invalid_instance_token h4 in
    let c = validate_request-accepts rid req ctx v h5 in
    let (same, configured) = token_ok-eq _ _ token in
    record {
      version = version_ok-eq _ version;
      token = same;
      configured = configured;
      id = c.id;
      safe = subst (λ t. is_safe_id (encode t) max_request_id_len ≡ true) (sym c.id) c.safe;
      stem = λ t e. c.id ∙ stem_ok-eq rid ctx.request_id_hint t c.stem e;
      fresh = subst (λ t. holds ctx.seen t ≡ false) (sym c.id) (not_true _ c.fresh);
      unexpired = ltb_ℤ-le (v.expires_unix +ℤ clock_skew_seconds) ctx.now (not_true _ c.unexpired);
      allowed = c.allowed;
    }
  where
    not_true : (b : Bool) → not b ≡ true → b ≡ false
    not_true true h = absurd (ground (arith, h))
    not_true false h = refl
