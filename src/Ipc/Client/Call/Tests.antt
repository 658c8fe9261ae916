-- ===== src/Ipc/Client/Call/Tests.antt =====
-- Runs of `await_result` and `call` of crates/reaper-ipc/src/client.rs.
use reapermcp.Ipc.Heartbeat.Tests.{alive, sample_casts, written}
use reapermcp.Ipc.Client.Call.Ready.{IsReady, call-returns, call-IsReady}
use reapermcp.Qjson.Floats.Samples.{sample_floats}
use reapermcp.Ipc.Config.{Config, validate, has_control}
use reapermcp.Ipc.Client.Call.{
  call, prepare, send, sent, waits, timeout_secs, mint_request_id, publishes, read_heartbeat,
  attempt, Setting, Called, outcome_of,
}
use reapermcp.Ipc.Heartbeat.{parse_heartbeat, opt_i64, integer_of, stale_after, positive_or_default}
use reapermcp.Prelude.Machine.{to_i64}
use reapermcp.Qjson.Time.Iso8601.{iso8601_from_unix, year_text}
use reapermcp.Ipc.Protocol.{
  require, or_refuse, is_safe_id, starts_alphanumeric, all_id_bytes, has_dots, is_allowed_command,
  holds, protocol_version, opt_string, string_of, accepted,
}
use reapermcp.Ipc.Request.{
  build, to_json, put_text, put_project, object_payload, unless_empty, RequestEnvelope,
}
use reapermcp.Qjson.Json.Fields.{as_i64, member, as_str, as_bool}
use reapermcp.Qjson.Json.Pretty.{
  serialize, to_string_pretty, write_pretty, pretty_items, pretty_entries, push_indent,
  sort_keys_recursive, sort_items, sort_entries, insert_sorted,
}
use reapermcp.Qjson.Json.{insert, Json, obj, entry, no_entries, get, str, bool, null}
use reapermcp.Prelude.Decimal.{pad, show, emit, show_ℤ}
use reapermcp.Qjson.Time.{
  civil_from_days, civil_of_era, floor_div, era_year, era_year_day, calendar_month,
}
use reapermcp.Prelude.Int.{div_euclid, rem_euclid, ◌+ℤ◌, ◌-ℤ◌, ◌*ℤ◌, ◌/ℤ◌, ◌%ℤ◌, pos}
use reapermcp.Qjson.Json.Write.{
  write_compact, write_json_string, escape, escape_char, write_members, key_order, key_le, bytes_le,
}
use reapermcp.Qjson.Utf8.{encode, encode_char}
use reapermcp.Qjson.Floats.{
  format_f64, matches, reads_back, consider, precisions, fallback, chosen, has_mark,
}
use reapermcp.Ipc.Protocol.Envelope.{is_object}
use reapermcp.Ipc.Result.{
  value, interpret, own_outcome, into_outcome, outcome_by, parse_result, check, or_break, bool_of,
  unless_null, error_of, items_of, value_or_empty, is_some,
}
use reapermcp.Ipc.Client.{
  Round, Ended, absent, sized, contents, found, timed_out, await_result, take_result, take_content,
  poll, decide, last_look, first_wait, ended, ms,
}
use reapermcp.Ipc.Client.Ends.{await_result-ends}
use reapermcp.Ipc.Client.Explained.{IsExplained, await_result-IsExplained}
use reapermcp.Ipc.Client.Owned.{IsOwnLook, await_result-own}
use reapermcp.Prelude.{
  ℕ, ◌*◌, ◌+◌, ◌/◌, ◌≤◌, ◌≡◌, Bool, some, codes, true, false, refl, arith, ◌==◌, if◌then◌else◌,
  none,
}

abbrev ready : Json Bool
ready = obj (
    entry (codes "protocol_version") (str protocol_version) (
      entry (codes "request_id") (str (codes "r1"))
        (entry (codes "ok") (bool true) (entry (codes "result") (str (codes "fine")) no_entries))))

-- The result is there from the third look on.
abbrev arrives : ℕ → Round Bool
arrives k = record {
  look = if k == 0 then absent else if k == 1 then absent else sized 100 (contents (some ready));
  cancelled = false;
  lag = 7;
}

abbrev never : ℕ → Round Bool
never k = record { look = absent; cancelled = false; lag = 0 }

-- Waits of 5, 10, 20, 40 and 50 milliseconds, the last one cut to 45.
timeout_run :
    await_result (120 * ms) (50 * ms) 1000 (codes "r1") never
    ≡ some (ended timed_out 7 (120 * ms) false true)
unfolding await_result poll decide last_look first_wait take_result
timeout_run = refl

arrival_run :
    await_result (120 * ms) (50 * ms) 1000 (codes "r1") arrives
    ≡ some (ended (found (value (str (codes "fine")))) 3 (15 * ms + 21) true false)
unfolding await_result poll decide last_look first_wait take_result take_content interpret
    own_outcome into_outcome outcome_by parse_result check or_break bool_of unless_null error_of
    value_or_empty is_some is_object opt_string string_of member get as_str as_bool items_of
arrival_run = refl

await_result-ends_example :
    (e : Ended Bool) × (await_result (120 * ms) (50 * ms) 1000 (codes "r1") never ≡ some e)
    × (e.looks ≤ 120 * ms / first_wait (50 * ms) + 3)
await_result-ends_example =
    await_result-ends (120 * ms) (50 * ms) 1000 (codes "r1") never (omega arith)

await_result-IsExplained_example :
    IsExplained
      (120 * ms)
      (50 * ms)
      1000
      (codes "r1")
      never
      (ended timed_out 7 (120 * ms) false true)
await_result-IsExplained_example =
    await_result-IsExplained (120 * ms) (50 * ms) 1000 (codes "r1") never _ timeout_run

await_result-own_example :
    (m : ℕ) × IsOwnLook 1000 (codes "r1") (arrives m).look (str (codes "fine"))
await_result-own_example =
    await_result-own 1000 (codes "r1") (120 * ms) (50 * ms) arrives _ (str (codes "fine"))
      arrival_run refl

abbrev usual : Config
usual = record {
  dir_empty = false;
  dir_escapes = false;
  instance_token = codes "0123456789abcdef";
  request_timeout = 120 * ms;
  poll_interval = 50 * ms;
  max_request_bytes = 4000;
  max_result_bytes = 4000;
}

-- The first id is in use.
abbrev setting : Setting Bool
setting = record {
  cancelled_before = false;
  heartbeat = some alive;
  heartbeat_now = written;
  now = written;
  minted = λ k. if k == 0 then codes "r0" else codes "r1";
  occupied = λ k. k == 0;
  room = 9000000000000000000000;
  creates = true;
  writes = true;
  renames = true;
  rounds = arrives;
}

usual-valid : validate usual ≡ accepted true
unfolding validate require has_control encode encode_char
usual-valid = refl

call-returns_example :
    (c : Called Bool) × (call sample_floats sample_casts usual setting (codes "ping") null none
      ≡ some c)
call-returns_example =
    call-returns sample_floats sample_casts usual setting (codes "ping") null none usual-valid
      (omega arith)

abbrev published_ping : RequestEnvelope Bool
published_ping = record {
  version = protocol_version;
  request_id = codes "r1";
  instance_token = codes "0123456789abcdef";
  created_at = iso8601_from_unix written;
  expires_at = iso8601_from_unix (pos 1785091880);
  command = codes "ping";
  require_bridge_version = none;
  expected_project = none;
  payload = obj no_entries;
}

call_run :
    call sample_floats sample_casts usual setting (codes "ping") null none
    ≡ some (record { outcome = value (str (codes "fine")); command = some published_ping })
unfolding call prepare send sent waits timeout_secs mint_request_id publishes read_heartbeat attempt
    outcome_of await_result poll decide last_look first_wait take_result take_content interpret
    own_outcome into_outcome outcome_by parse_result check or_break bool_of unless_null error_of
    value_or_empty is_some is_object opt_string as_bool items_of parse_heartbeat opt_i64 integer_of
    stale_after positive_or_default to_i64 require or_refuse is_safe_id starts_alphanumeric
    all_id_bytes has_dots is_allowed_command holds build to_json put_text put_project object_payload
    unless_empty as_i64 serialize to_string_pretty write_pretty pretty_items pretty_entries
    push_indent sort_keys_recursive sort_items sort_entries insert_sorted insert string_of member
    get as_str iso8601_from_unix year_text pad show emit civil_from_days civil_of_era floor_div
    era_year era_year_day calendar_month div_euclid rem_euclid ◌+ℤ◌ ◌-ℤ◌ ◌*ℤ◌ ◌/ℤ◌ ◌%ℤ◌
    write_compact write_json_string escape escape_char write_members key_order show_ℤ encode
    encode_char key_le bytes_le format_f64 matches reads_back consider precisions fallback chosen
    has_mark
call_run = refl

call-IsReady_example :
    IsReady sample_floats sample_casts usual setting (codes "ping") null none published_ping
call-IsReady_example =
    call-IsReady sample_floats sample_casts usual setting (codes "ping") null none _ published_ping
      call_run refl
