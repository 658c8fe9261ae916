-- ===== src/Ipc/Client/Tests.antt =====
-- Runs of the client of crates/reaper-ipc against the bridge of its tests.
use reapermcp.Qjson.Floats.{
  format_f64, matches, reads_back, consider, precisions, fallback, chosen, has_mark,
}
use reapermcp.Qjson.Json.Write.{
  write_compact, write_json_string, escape, escape_char, write_members, key_order, key_le, bytes_le,
}
use reapermcp.Prelude.Decimal.{pad, show, emit, show_ℤ}
use reapermcp.Qjson.Json.{obj, no_entries, null, get, insert, str, JsonMap}
use reapermcp.Qjson.Json.Fields.{member, as_str}
use reapermcp.Qjson.Floats.Samples.{sample_floats}
use reapermcp.Qjson.Utf8.{Text, encode, encode_char}
use reapermcp.Ipc.Protocol.Envelope.{size_ok, validate_envelope}
use reapermcp.Ipc.Protocol.{
  ValidatedRequest, ValidationContext, ErrorCode, accepted, require, is_safe_id,
  starts_alphanumeric, all_id_bytes, has_dots, is_allowed_command, holds, protocol_version,
  string_of,
}
use reapermcp.Ipc.Request.{
  ExpectedProject, RequestEnvelope, build, is_empty, is_none, object_payload, unless_empty, to_json,
}
use reapermcp.Ipc.Request.Wire.{IsExpected, validated_of, build-accepted}
use reapermcp.Qjson.Time.Iso8601.{iso8601_from_unix, year_text}
use reapermcp.Qjson.Json.Pretty.{
  serialize, to_string_pretty, write_pretty, pretty_items, pretty_entries, push_indent,
  sort_keys_recursive, sort_items, sort_entries, insert_sorted,
}
use reapermcp.Qjson.Time.{
  civil_from_days, civil_of_era, floor_div, era_year, era_year_day, calendar_month,
}
use reapermcp.Qjson.Time.Iso8601.RoundTrip.{year_of}
use reapermcp.Ipc.Result.{interpret, value, value_or_empty, unless_null}
use reapermcp.Ipc.Reply.{
  Answer, answer, reply, make_result, max_result_bytes, transaction_id_of, is_ok, result_field,
  error_field, text_or_null, or_else, plan_transaction,
}
use reapermcp.Ipc.Reply.Exchange.{exchange, published_reply, outcome_of}
use reapermcp.Prelude.Int.{ℤ, pos, ◌+ℤ◌, ◌*ℤ◌, ◌-ℤ◌, ◌/ℤ◌, ◌%ℤ◌, div_euclid, rem_euclid}
use reapermcp.Prelude.{
  ℕ, Bool, none, some, codes, true, false, refl, arith, ◌≡◌, [], ◌∷◌, ltb, length,
}

abbrev token : Text
token = codes "0123456789abcdef"

abbrev created : ℤ
created = pos 1785091879

abbrev expires : ℤ
expires = pos 1785091909

abbrev project : ExpectedProject
project = record {
  project_uuid = some (codes "p1");
  state_change_count = none;
  source_item_guid = none;
  source_take_guid = none;
  midi_hash = none;
  tempo_map_hash = none;
  snapshot_hash = some (codes "fnv1a64:0");
}

abbrev sent_request : RequestEnvelope Bool
sent_request = record {
  version = protocol_version;
  request_id = codes "r1";
  instance_token = token;
  created_at = iso8601_from_unix created;
  expires_at = iso8601_from_unix expires;
  command = codes "status";
  require_bridge_version = none;
  expected_project = some project;
  payload = obj no_entries;
}

built :
    build (codes "r1") token (codes "status") null (some project) created expires
    ≡ accepted sent_request
unfolding build require is_safe_id encode encode_char starts_alphanumeric all_id_bytes has_dots
    is_allowed_command holds object_payload unless_empty is_empty is_none
built = refl

abbrev waiting : ValidationContext
waiting = record {
  instance_token = token;
  now = created;
  request_id_hint = some (codes "r1");
  seen = codes "r0" ∷ [];
  raw_size = some 400;
  bridge_version = codes "1.0.0";
}

year_sent : year_of created ≡ pos 2026
unfolding civil_from_days civil_of_era floor_div era_year era_year_day calendar_month div_euclid
    ◌+ℤ◌ ◌-ℤ◌ ◌*ℤ◌ ◌/ℤ◌ ◌%ℤ◌
year_sent = refl

year_late : year_of expires ≡ pos 2026
unfolding civil_from_days civil_of_era floor_div era_year era_year_day calendar_month div_euclid
    ◌+ℤ◌ ◌-ℤ◌ ◌*ℤ◌ ◌/ℤ◌ ◌%ℤ◌
year_late = refl

waiting-IsExpected : IsExpected waiting (codes "r1") token created expires
unfolding holds size_ok ◌+ℤ◌
waiting-IsExpected = record {
  installed = refl;
  stem = refl;
  fresh = refl;
  size = refl;
  unexpired = omega arith;
  created_from = rw year_sent (omega arith);
  created_to = rw year_sent (omega arith);
  expires_from = rw year_late (omega arith);
  expires_to = rw year_late (omega arith);
}

build-accepted_example :
    validate_envelope (to_json sent_request) waiting
    ≡ accepted (validated_of (codes "r1") (codes "status") (obj no_entries) (some project) expires)
build-accepted_example =
    build-accepted (codes "r1") token (codes "status") null (some project) created expires
      sent_request waiting built waiting-IsExpected

-- The bridge answers with its status.
abbrev respond : ValidatedRequest Bool → Answer Bool
respond v = reply (answer (str (codes "fine")))

abbrev note : ErrorCode → Text × JsonMap Bool
note e = ([], no_entries)

abbrev message : ℕ → Text
message n = []

small :
    ltb max_result_bytes (
      length (
        serialize sample_floats (
          make_result
            (codes "1.0.0")
            true
            created
            (codes "r1")
            (some (codes "status"))
            (answer (str (codes "fine")))
            (transaction_id_of {F = Bool}
              (validated_of (codes "r1") (codes "status") (obj no_entries) (some project) expires))
            (iso8601_from_unix created))))
    ≡ false
unfolding serialize to_string_pretty write_pretty pretty_items pretty_entries push_indent
    sort_keys_recursive sort_items sort_entries insert_sorted make_result insert is_ok result_field
    error_field text_or_null transaction_id_of or_else plan_transaction string_of member get as_str
    iso8601_from_unix year_text pad show emit civil_from_days civil_of_era floor_div era_year
    era_year_day calendar_month div_euclid rem_euclid ◌+ℤ◌ ◌-ℤ◌ ◌*ℤ◌ ◌/ℤ◌ ◌%ℤ◌ write_compact
    write_json_string escape escape_char write_members key_order show_ℤ encode encode_char key_le
    bytes_le format_f64 matches reads_back consider precisions fallback chosen has_mark
small = refl

exchange_example :
    interpret (codes "r1") (
      published_reply sample_floats true
        (codes "1.0.0")
        note
        respond
        message
        created
        (codes "r1")
        (to_json sent_request)
        waiting)
    ≡ value (str (codes "fine"))
unfolding outcome_of value_or_empty unless_null
exchange_example =
    exchange sample_floats true (codes "1.0.0") note respond message (codes "r1") token
      (codes "status") null (some project) created expires created sent_request waiting
      (answer (str (codes "fine"))) built waiting-IsExpected refl small
