-- ===== src/Ipc/Request/Checks.antt =====
-- The checks of protocol.rs on what crates/reaper-ipc/src/envelope.rs writes.
use reapermcp.Prelude.Decimal.{Bytes}
use reapermcp.Qjson.Json.Map.{text_eq_iff}
use reapermcp.Ipc.Protocol.Envelope.{
  version_ok, bridge_ok, token_ok, stem_ok, expiry_of, created_ok,
}
use reapermcp.Qjson.Time.Iso8601.{iso8601_from_unix, parse_iso8601}
use reapermcp.Qjson.Time.Iso8601.Ascii.{encode-IsAscii, iso8601_from_unix-IsAscii}
use reapermcp.Qjson.Time.Iso8601.RoundTrip.{parse_iso8601-iso8601_from_unix, year_of}
use reapermcp.Ipc.Protocol.{accepted, or_refuse, tokens_equal, protocol_version, no_difference}
use reapermcp.Prelude.Int.{ℤ, pos, ◌≤ℤ◌}
use reapermcp.Qjson.Utf8.{Text, encode}
use reapermcp.Prelude.{◌≡◌, refl, ap, some, none, true, arith, ◌∙◌, not, length, ◌==◌, ◌∷◌, []}

parse-encode-iso :
    (t : ℤ)
    → pos 0 ≤ℤ year_of t
    → year_of t ≤ℤ pos 9999
    → parse_iso8601 (encode (iso8601_from_unix t)) ≡ some t
parse-encode-iso t lo hi =
    ap parse_iso8601 (encode-IsAscii _ (iso8601_from_unix-IsAscii t))
    ∙ parse_iso8601-iso8601_from_unix t lo hi

pub expiry_of-iso :
    (t : ℤ)
    → pos 0 ≤ℤ year_of t
    → year_of t ≤ℤ pos 9999
    → expiry_of (some (iso8601_from_unix t)) ≡ accepted t
unfolding expiry_of or_refuse
expiry_of-iso t lo hi = rw (parse-encode-iso t lo hi) refl

pub created_ok-iso :
    (t : ℤ)
    → pos 0 ≤ℤ year_of t
    → year_of t ≤ℤ pos 9999
    → created_ok (some (iso8601_from_unix t)) ≡ true
unfolding created_ok
created_ok-iso t lo hi = rw (parse-encode-iso t lo hi) refl

pub version_ok-own : version_ok (some protocol_version) ≡ true
unfolding version_ok
version_ok-own = (text_eq_iff protocol_version protocol_version).1 refl

pub bridge_ok-none : (v : Text) → bridge_ok none v ≡ true
unfolding bridge_ok
bridge_ok-none v = refl

pub stem_ok-own : (t : Text) → stem_ok t (some t) ≡ true
unfolding stem_ok
stem_ok-own t = (text_eq_iff t t).1 refl

no_difference-own : (s : Bytes) → no_difference s s ≡ true
unfolding no_difference
no_difference-own [] = refl
no_difference-own (c ∷ s) = ground (arith, no_difference-own s)

pub token_ok-own : (t : Text) → not (length t == 0) ≡ true → token_ok t t ≡ true
unfolding token_ok tokens_equal
token_ok-own t h = ground (arith, h, no_difference-own (encode t))
