-- ===== src/Ipc/Tests.antt =====
-- Runs of the request checks and of the bridge in crates/reaper-ipc.
use reapermcp.Prelude.Int.{◌/ℤ◌, ◌%ℤ◌, pos, ◌+ℤ◌, ◌-ℤ◌, ◌*ℤ◌}
use reapermcp.Qjson.Time.{days_from_civil, day_of_era, floor_div, days_in_month, is_leap_year}
use reapermcp.Qjson.Time.Iso8601.{
  parse_iso8601, parse_digits, parse_uint, parse_offset, skip_digits, skip_fraction, checked,
}
use reapermcp.Qjson.Json.Fields.{member, as_str}
use reapermcp.Prelude.{codes, ℕ, ◌≢◌, ◌++◌, arith, ◌≡◌, true, none, false, refl}
use reapermcp.Ipc.Bridge.{
  document, State, verdict, Request, context, start, process, Response, next, answered, stop,
  finish, respond,
}
use reapermcp.Ipc.Bridge.Replay.{IsDistinct, IsSound, Run-IsSound, no_replay}
use reapermcp.Ipc.Protocol.Accepts.{IsAccepted, validate_envelope-IsAccepted}
use reapermcp.Ipc.Protocol.Envelope.{
  validate_envelope, validate_request, validate_body, size_ok, is_object, version_ok, bridge_ok,
  token_ok, stem_ok, expiry_of, created_ok, payload_of, project_of,
}
use reapermcp.Qjson.Utf8.{Text, encode, encode_char}
use reapermcp.Ipc.Protocol.{
  accepted, ValidatedRequest, ValidationContext, is_safe_id, require, starts_alphanumeric,
  or_refuse, all_id_bytes, protocol_version, has_dots, max_request_id_len, holds, opt_string,
  string_of, tokens_equal, no_difference, is_allowed_command, command_needs_project,
}
use reapermcp.Qjson.Json.{get, Json, obj, entry, no_entries, str}

abbrev token : Text
token = codes "0123456789abcdef"

abbrev ping : Text → Json ℕ
ping id = obj (
    entry (codes "protocol_version") (str protocol_version) (
      entry (codes "instance_token") (str token) (
        entry (codes "request_id") (str id) (
          entry (codes "expires_at") (str (codes "2026-07-26T20:00:00Z"))
            (entry (codes "command") (str (codes "ping")) no_entries)))))

abbrev ping_file : Text → Request ℕ
ping_file id = record {
  name = id ++ codes ".command.json";
  stem = id;
  claim_succeeds = true;
  body = document (ping id);
  size = 200;
  now = pos 1785091880;
}

abbrev respond_ok : ValidatedRequest ℕ → Response
respond_ok v = answered

abbrev validated : Text → ValidatedRequest ℕ
validated id = record {
  request_id = id;
  command = codes "ping";
  expires_unix = pos 1785096000;
  payload = obj no_entries;
  expected_project = none;
  needs_project = false;
}

abbrev version : Text
version = codes "1.0.0"

abbrev ping_context : ValidationContext
ping_context = context token version respond_ok (ping_file (codes "r1")) start

ping_run : validate_envelope (ping (codes "r1")) ping_context ≡ accepted (validated (codes "r1"))
unfolding validate_envelope validate_request validate_body require or_refuse size_ok is_object
    version_ok bridge_ok token_ok stem_ok holds is_safe_id opt_string string_of member get as_str
    tokens_equal no_difference encode encode_char starts_alphanumeric all_id_bytes has_dots
    expiry_of created_ok payload_of project_of is_allowed_command command_needs_project
    parse_iso8601 parse_digits parse_uint parse_offset skip_digits skip_fraction checked
    days_from_civil day_of_era floor_div days_in_month is_leap_year ◌+ℤ◌ ◌-ℤ◌ ◌*ℤ◌ ◌/ℤ◌ ◌%ℤ◌
ping_run = refl

validate_envelope-IsAccepted_example :
    IsAccepted (ping (codes "r1")) ping_context (validated (codes "r1"))
validate_envelope-IsAccepted_example =
    validate_envelope-IsAccepted (ping (codes "r1")) ping_context (validated (codes "r1")) ping_run

start-IsSound : IsSound start
unfolding IsDistinct
start-IsSound = record { distinct = record {}; counted = omega arith }

abbrev once : State
once = process token version respond_ok (ping_file (codes "r1")) start

Run-IsSound_example : IsSound once
Run-IsSound_example =
    Run-IsSound token version respond_ok (next (ping_file (codes "r1")) stop) start-IsSound

first_run :
    verdict token version respond_ok (document (ping (codes "r1"))) ping_context 200
    ≡ accepted (validated (codes "r1"))
unfolding verdict
first_run = ping_run

second_run :
    verdict token version respond_ok
      (document (ping (codes "r2")))
      (context token version respond_ok (ping_file (codes "r2")) once)
      200
    ≡ accepted (validated (codes "r2"))
unfolding validate_envelope validate_request validate_body require or_refuse size_ok is_object
    version_ok bridge_ok token_ok stem_ok holds is_safe_id opt_string string_of member get as_str
    tokens_equal no_difference encode encode_char starts_alphanumeric all_id_bytes has_dots
    expiry_of created_ok payload_of project_of is_allowed_command command_needs_project
    parse_iso8601 parse_digits parse_uint parse_offset skip_digits skip_fraction checked
    days_from_civil day_of_era floor_div days_in_month is_leap_year ◌+ℤ◌ ◌-ℤ◌ ◌*ℤ◌ ◌/ℤ◌ ◌%ℤ◌ verdict
    process finish respond
second_run = refl

safe_run : is_safe_id (encode (codes "r1")) max_request_id_len ≡ true
unfolding is_safe_id encode encode_char starts_alphanumeric all_id_bytes has_dots
safe_run = refl

no_replay_example : codes "r2" ≢ codes "r1"
no_replay_example =
    no_replay token version respond_ok (ping_file (codes "r1")) (ping_file (codes "r2")) start once
      (validated (codes "r1")) (validated (codes "r2")) safe_run refl first_run stop second_run
