-- ===== src/Ipc/Heartbeat/Tests.antt =====
-- Runs of `Heartbeat::parse` of crates/reaper-ipc on the heartbeat that the bridge of the fixtures
-- writes, after the tests of heartbeat.rs.
use reapermcp.Qjson.Json.Fields.{Casts, member, as_str, as_i64}
use reapermcp.Qjson.Json.{Json, get, obj, entry, no_entries, str, int, arr, item, no_items}
use reapermcp.Qjson.Floats.Samples.{sample_floats}
use reapermcp.Qjson.Utf8.{Text}
use reapermcp.Ipc.Protocol.Envelope.{is_object}
use reapermcp.Ipc.Protocol.{
  accepted, refused, require, or_refuse, opt_string, string_of, protocol_version, bridge_offline,
  ipc_protocol_mismatch,
}
use reapermcp.Ipc.Heartbeat.Online.{IsOnline, parse_heartbeat_iff}
use reapermcp.Ipc.Heartbeat.Mismatch.{parse_heartbeat-mismatch_iff}
use reapermcp.Ipc.Heartbeat.{
  Heartbeat, integer_of, opt_i64, stale_after, positive_or_default, parse_heartbeat, advertised,
  listed, keep_strings, same_texts, commands_match_this_build,
}
use reapermcp.Prelude.Machine.{to_i64}
use reapermcp.Prelude.Int.{rem_euclid, ◌%ℤ◌, ◌+ℤ◌, ℤ, pos, negsuc, ◌-ℤ◌}
use reapermcp.Prelude.{Bool, ◌≡◌, ◌≢◌, ◌↔◌, some, none, codes, true, false, refl, ◌∷◌, []}

abbrev pub sample_casts : Casts sample_floats
sample_casts = record {
  is_whole = λ v. false;
  at_least_min = λ v. true;
  below_limit = λ v. true;
  to_i64 = λ v. pos 0;
  of_i64 = λ z. true;
}

abbrev pub written : ℤ
written = pos 1785091879

abbrev pub beat : Text → Text → ℤ → Json Bool
beat version status timestamp = obj (
    entry (codes "protocol_version") (str version) (
      entry (codes "status") (str status) (
        entry (codes "timestamp") (int timestamp)
          (entry (codes "bridge_version") (str (codes "1.0.0")) no_entries))))

abbrev pub alive : Json Bool
alive = beat protocol_version (codes "online") written

abbrev foreign : Json Bool
foreign = beat (codes "qlabs-reaper-ipc/2") (codes "online") written

abbrev of_age : Json Bool → Heartbeat Bool
of_age doc = record {
  bridge_version = codes "1.0.0";
  reaper_version = codes "";
  version = protocol_version;
  project_uuid = none;
  age = 10;
  raw = doc;
}

-- At the threshold it is online, a second later it is not.
threshold_run :
    parse_heartbeat sample_floats sample_casts alive (pos 1785091889) ≡ accepted (of_age alive)
unfolding parse_heartbeat require or_refuse is_object opt_string string_of member get as_str opt_i64
    integer_of as_i64 stale_after positive_or_default to_i64 rem_euclid ◌%ℤ◌ ◌+ℤ◌ ◌-ℤ◌
threshold_run = refl

stale_run :
    parse_heartbeat sample_floats sample_casts alive (pos 1785091890) ≡ refused bridge_offline
unfolding parse_heartbeat require or_refuse is_object opt_string string_of member get as_str opt_i64
    integer_of as_i64 stale_after positive_or_default to_i64 rem_euclid ◌%ℤ◌ ◌+ℤ◌ ◌-ℤ◌
stale_run = refl

-- A mismatch wins over staleness.
mismatch_run :
    parse_heartbeat sample_floats sample_casts foreign (pos 1785191879)
    ≡ refused ipc_protocol_mismatch
unfolding parse_heartbeat require or_refuse is_object opt_string string_of member get as_str opt_i64
    integer_of as_i64 stale_after positive_or_default to_i64 rem_euclid ◌%ℤ◌ ◌+ℤ◌ ◌-ℤ◌
mismatch_run = refl

-- The least i64 as a timestamp, before the distance wraps around: online, of age zero.
overflow_run :
    let doc = beat protocol_version (codes "online") (negsuc 9223372036854775807) in
    parse_heartbeat sample_floats sample_casts doc written
    ≡ accepted (record (of_age doc) { age = 0 })
unfolding parse_heartbeat require or_refuse is_object opt_string string_of member get as_str opt_i64
    integer_of as_i64 stale_after positive_or_default to_i64 rem_euclid ◌%ℤ◌ ◌+ℤ◌ ◌-ℤ◌
overflow_run = refl

abbrev listing : Heartbeat Bool
listing = of_age (
    obj (
      entry (codes "commands")
        (arr
          (item (str (codes "ping")) (item (int (pos 3)) (item (str (codes "status")) no_items))))
        no_entries))

-- Values that are no strings are left out.
advertised_run : advertised listing ≡ codes "ping" ∷ codes "status" ∷ []
unfolding advertised listed keep_strings member get
advertised_run = refl

match_run : commands_match_this_build listing ≡ false
unfolding commands_match_this_build same_texts advertised listed keep_strings member get
match_run = refl

parse_heartbeat_iff_example : IsOnline sample_floats sample_casts alive written ↔ (
    (h : Heartbeat Bool) × (parse_heartbeat sample_floats sample_casts alive written ≡ accepted h))
parse_heartbeat_iff_example = parse_heartbeat_iff sample_floats sample_casts alive written

parse_heartbeat-mismatch_iff_example :
    (parse_heartbeat sample_floats sample_casts foreign (pos 1785191879)
      ≡ refused ipc_protocol_mismatch)
    ↔ ((v : Text) × (opt_string foreign (codes "protocol_version") ≡ some v)
        × (v ≢ protocol_version))
parse_heartbeat-mismatch_iff_example =
    parse_heartbeat-mismatch_iff sample_floats sample_casts foreign (pos 1785191879)
