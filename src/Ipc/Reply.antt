-- ===== src/Ipc/Reply.antt =====
-- What the bridge of crates/reaper-ipc/src/testing.rs writes for a request: `make_result` and
-- `write_result`. Of its file operations only the document is kept.
pub mod Exchange
use reapermcp.Qjson.Json.{
  Json, insert, no_entries, no_items, obj, arr, null, bool, str, int, float, JsonMap,
}
use reapermcp.Qjson.Json.Fields.{member, as_str}
use reapermcp.Qjson.Json.Pretty.{serialize}
use reapermcp.Qjson.Floats.{Floats}
use reapermcp.Qjson.Time.Iso8601.{iso8601_from_unix}
use reapermcp.Qjson.Utf8.{Text}
use reapermcp.Ipc.Failure.{Failure, code_text, result_too_large, wire}
use reapermcp.Ipc.Protocol.{
  Verdict, ErrorCode, ValidatedRequest, accepted, refused, opt_string, string_of, protocol_version,
}
use reapermcp.Ipc.Bridge.{Response, answered, failing, silent}
use reapermcp.Prelude.Int.{ℤ, pos}
use reapermcp.Prelude.{
  ℕ, Option, Bool, none, some, codes, length, ltb, true, false, [], if◌then◌else◌,
}

abbrev pub max_result_bytes : ℕ
max_result_bytes = 8388608

-- The outcome of a request, with the message of an error.
pub data Reply (F : Type 0) : Type 0 where
  answer : Json F → Reply F
  failure : Text → Failure F → Reply F

-- `Response`; its three cases are those of Bridge.antt with what they carry.
pub data Answer (F : Type 0) : Type 0 where
  reply : Reply F → Answer F
  silence : Answer F

abbrev pub response_of : {F : Type 0} → Answer F → Response
response_of (reply (answer v)) = answered
response_of (reply (failure t e)) = failing
response_of silence = silent

-- The first of the two that is there.
unfoldable pub or_else : Option Text → Option Text → Option Text
or_else none t = t
or_else (some t) _ = some t

module _ {F : Type 0} where
  unfoldable pub is_ok : Reply F → Bool
  is_ok (answer v) = true
  is_ok (failure t e) = false

  unfoldable pub result_field : Reply F → Json F
  result_field (answer v) = v
  result_field (failure t e) = null

  unfoldable pub error_field : Reply F → Json F
  error_field (answer v) = null
  error_field (failure t e) = wire t e

  unfoldable pub text_or_null : Option Text → Json F
  text_or_null none = null
  text_or_null (some t) = str t

  -- `bridge_version`, the 1.25 of `duration_ms` and the time are the surroundings.
  unfoldable pub make_result :
      Text → F → ℤ → Text → Option Text → Reply F → Option Text → Text → Json F
  make_result bridge_version duration now request_id command outcome transaction_id started_at =
      let m = (insert (codes "protocol_version") (str protocol_version) no_entries).0 in
      let m = (insert (codes "request_id") (str request_id) m).0 in
      let m = (insert (codes "command") (text_or_null command) m).0 in
      let m = (insert (codes "ok") (bool (is_ok outcome)) m).0 in
      let m = (insert (codes "result") (result_field outcome) m).0 in
      let m = (insert (codes "error") (error_field outcome) m).0 in
      let m = (insert (codes "transaction_id") (text_or_null transaction_id) m).0 in
      let m = (insert (codes "bridge_version") (str bridge_version) m).0 in
      let m = (insert (codes "reaper_version") (str (codes "7.22/linux-x86_64")) m).0 in
      let m = (insert (codes "started_at") (str started_at) m).0 in
      let m = (insert (codes "completed_at") (str (iso8601_from_unix now)) m).0 in
      let m = (insert (codes "duration_ms") (float duration) m).0 in
      obj (insert (codes "warnings") (arr no_items) m).0

  unfoldable pub plan_transaction : Option (Json F) → Option Text
  plan_transaction none = none
  plan_transaction (some p) = string_of (member (codes "transaction_id") p)

  unfoldable pub transaction_id_of : ValidatedRequest F → Option Text
  transaction_id_of req =
      or_else (string_of (member (codes "transaction_id") req.payload))
        (plan_transaction (member (codes "plan") req.payload))

-- The error in place of a result of `size` bytes.
abbrev pub too_large : {F : Type 0} → ℕ → Failure F
too_large size = record {
  code = result_too_large;
  details =
      (insert (codes "limit") (int (pos max_result_bytes))
        (insert (codes "size") (int (pos size)) no_entries).0).0;
}

module _ (fs : Floats) (duration : fs.Float) (bridge_version : Text) where
  open fs use {Float}

  -- The document that `write_result` publishes; `message` is the text of its own error.
  unfoldable pub published : (ℕ → Text) → ℤ → Text → Json Float → Json Float
  published message now request_id envelope =
      let size = length (serialize fs envelope) in
      if ltb max_result_bytes size
      then make_result bridge_version duration now request_id
          (string_of (member (codes "command") envelope)) (failure (message size) (too_large size))
          none []
      else envelope

  -- A silent responder leaves no result.
  unfoldable pub document : ℤ → Text → ValidatedRequest Float → Answer Float → Option (Json Float)
  document now stem req silence = none
  document now stem req (reply r) = some (
      make_result bridge_version duration now stem (some req.command) r (transaction_id_of req)
        (iso8601_from_unix now))

  -- The result of a request that was claimed, from its verdict on: `note` is the message and the
  -- details of a refusal.
  unfoldable pub envelope_of :
      (ErrorCode → Text × JsonMap Float)
      → (ValidatedRequest Float → Answer Float)
      → ℤ
      → Text
      → Verdict (ValidatedRequest Float)
      → Option (Json Float)
  envelope_of note responder now stem (refused e) =
      let (message, details) = note e in
      some (
        make_result bridge_version duration now stem none
          (failure message (record { code = code_text e; details = details })) none
          (iso8601_from_unix now))
  envelope_of note responder now stem (accepted req) = document now stem req (responder req)
