-- ===== src/Ipc/Heartbeat/Online.antt =====
-- The liveness rule of crates/reaper-ipc/src/heartbeat.rs and `Heartbeat::parse`.
use reapermcp.Qjson.Json.Fields.{Casts, member}
use reapermcp.Qjson.Json.Map.{text_eq_iff}
use reapermcp.Qjson.Json.{Json, text_eq, obj, null, bool, int, float, str, arr}
use reapermcp.Qjson.Floats.{Floats}
use reapermcp.Qjson.Utf8.{Text}
use reapermcp.Ipc.Protocol.Steps.{behind, passed, or_refuse-some, require-then, or_refuse-then}
use reapermcp.Ipc.Protocol.Envelope.{is_object}
use reapermcp.Ipc.Protocol.{
  accepted, or_refuse, opt_string, string_of, or_empty, protocol_version, bridge_offline,
  ipc_protocol_mismatch,
}
use reapermcp.Ipc.Heartbeat.{
  Heartbeat, positive_or_default, opt_i64, stale_after, parse_heartbeat, clamp,
}
use reapermcp.Prelude.Machine.{to_i64}
use reapermcp.Prelude.Int.{ℤ, pos, ltb_ℤ, ◌-ℤ◌, ◌≤ℤ◌}
use reapermcp.Prelude.{◌≡◌, ◌↔◌, Option, none, some, codes, not, true, refl, ap, arith, ◌∙◌}

positive_or_default-positive : (o : Option ℤ) → pos 1 ≤ℤ positive_or_default o
unfolding positive_or_default
positive_or_default-positive none = ground arith
positive_or_default-positive (some v) = ground arith

-- With a threshold that is positive, a moment in the future is as good as one of age zero.
recent_iff : (s d : ℤ) → pos 1 ≤ℤ s → (not (ltb_ℤ s (pos (clamp d))) ≡ true) ↔ (d ≤ℤ s)
recent_iff s d h = (λ t. ground (arith, h, t), λ t. ground (arith, h, t))

or_empty-online :
    (o : Option Text) → text_eq (or_empty o) (codes "online") ≡ true → o ≡ some (codes "online")
or_empty-online none h = absurd (ground (arith, h))
or_empty-online (some t) h = ap some ((text_eq_iff t _).0 h)

pub member-is_object :
    {F : Type 0} (doc : Json F) (k t : Text) → opt_string doc k ≡ some t → is_object doc ≡ true
unfolding opt_string string_of member is_object
member-is_object (obj m) k t h = refl
member-is_object null k t h = absurd (grind (arith, h))
member-is_object (bool b) k t h = absurd (grind (arith, h))
member-is_object (int i) k t h = absurd (grind (arith, h))
member-is_object (float f) k t h = absurd (grind (arith, h))
member-is_object (str s) k t h = absurd (grind (arith, h))
member-is_object (arr l) k t h = absurd (grind (arith, h))

module _ (fs : Floats) (casts : Casts fs) where
  open fs use {Float}

  -- The rule, as the head of the file has it, on the difference as the release profile computes it.
  pub record IsOnline (doc : Json Float) (now : ℤ) : Type 0 where
    pub timestamp : ℤ
    pub version : opt_string doc (codes "protocol_version") ≡ some protocol_version
    pub status : opt_string doc (codes "status") ≡ some (codes "online")
    pub stamped : opt_i64 fs casts doc (codes "timestamp") ≡ some timestamp
    pub recent : to_i64 (now -ℤ timestamp) ≤ℤ stale_after fs casts doc

  parse_heartbeat-IsOnline :
      (doc : Json Float) (now : ℤ) (h : Heartbeat Float)
      → parse_heartbeat fs casts doc now ≡ accepted h
      → IsOnline doc now
  unfolding parse_heartbeat stale_after
  parse_heartbeat-IsOnline doc now hb h =
      let (_, h1) = passed (is_object doc) bridge_offline h in
      let (v, present, h2) =
        behind (or_refuse (opt_string doc (codes "protocol_version")) bridge_offline) h1 in
      let (same, h3) = passed _ ipc_protocol_mismatch h2 in
      let (status, h4) = passed _ bridge_offline h3 in
      let (timestamp, stamped, h5) =
        behind (or_refuse (opt_i64 fs casts doc (codes "timestamp")) bridge_offline) h4 in
      let (recent, _) = passed _ bridge_offline h5 in
      record {
        timestamp = timestamp;
        version = or_refuse-some _ _ present ∙ ap some ((text_eq_iff v protocol_version).0 same);
        status = or_empty-online _ status;
        stamped = or_refuse-some _ _ stamped;
        recent =
            (recent_iff _ (to_i64 (now -ℤ timestamp)) (positive_or_default-positive _)).0 recent;
      }

  IsOnline-parse_heartbeat :
      (doc : Json Float) (now : ℤ)
      → IsOnline doc now
      → (h : Heartbeat Float) × (parse_heartbeat fs casts doc now ≡ accepted h)
  unfolding parse_heartbeat stale_after
  IsOnline-parse_heartbeat doc now o = (
    _,
    require-then _ _ (member-is_object doc _ _ o.version)
        ∙ or_refuse-then _ _ o.version
        ∙ require-then _ _ ((text_eq_iff protocol_version protocol_version).1 refl)
        ∙ require-then _ _ ((text_eq_iff _ (codes "online")).1 (ap or_empty o.status))
        ∙ or_refuse-then _ _ o.stamped
        ∙ require-then _ _ (
            (recent_iff _ (to_i64 (now -ℤ o.timestamp)) (positive_or_default-positive _)).1
              o.recent),
  )

  -- A heartbeat is taken as online exactly by the rule: it has the protocol's version, the status
  -- "online" and an integer timestamp, and the i64 difference of now and the timestamp, which wraps
  -- around, is at most the document's threshold, which is ten seconds unless it gives a positive
  -- one. A timestamp in the future passes, and so does one so far in the past that the difference
  -- wraps around.
  pub parse_heartbeat_iff :
      (doc : Json Float) (now : ℤ)
      → IsOnline doc now ↔ ((h : Heartbeat Float) × (parse_heartbeat fs casts doc now ≡ accepted h))
  parse_heartbeat_iff doc now =
      (IsOnline-parse_heartbeat doc now, λ p. parse_heartbeat-IsOnline doc now p.0 p.1)
