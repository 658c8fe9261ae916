-- ===== src/Ipc/Heartbeat/Mismatch.antt =====
-- What `Heartbeat::parse` of crates/reaper-ipc/src/heartbeat.rs says of a bridge of another protocol.
use reapermcp.Qjson.Json.Fields.{Casts}
use reapermcp.Qjson.Json.Map.{text_eq_iff}
use reapermcp.Qjson.Json.{Json, text_eq}
use reapermcp.Qjson.Floats.{Floats}
use reapermcp.Qjson.Utf8.{Text}
use reapermcp.Ipc.Protocol.Envelope.{is_object}
use reapermcp.Ipc.Heartbeat.Online.{member-is_object}
use reapermcp.Ipc.Protocol.Steps.{
  require-then, or_refuse-then, require-else, past_require, past_or_refuse,
}
use reapermcp.Ipc.Protocol.{
  refused, opt_string, protocol_version, bridge_offline, ipc_protocol_mismatch,
}
use reapermcp.Ipc.Heartbeat.{opt_i64, parse_heartbeat}
use reapermcp.Prelude.Int.{ℤ}
use reapermcp.Prelude.{◌≡◌, ◌≢◌, ◌↔◌, inl, inr, some, codes, false, sym, arith, ◌∙◌, Bool-cases}

offline_other : bridge_offline ≢ ipc_protocol_mismatch
offline_other h = absurd (grind (arith, h))

different : (v : Text) → v ≢ protocol_version → text_eq v protocol_version ≡ false
different v n = elim (Bool-cases (text_eq v protocol_version)) [
  | inl same ↦ absurd (n ((text_eq_iff v protocol_version).0 same))
  | inr other ↦ other
]

module _ (fs : Floats) (casts : Casts fs) where
  open fs use {Float}

  mismatch-other :
      (doc : Json Float) (now : ℤ)
      → parse_heartbeat fs casts doc now ≡ refused ipc_protocol_mismatch
      → (v : Text) × (opt_string doc (codes "protocol_version") ≡ some v) × (v ≢ protocol_version)
  unfolding parse_heartbeat
  mismatch-other doc now h =
      let h1 = past_require (is_object doc) bridge_offline offline_other h in
      let (v, present, h2) =
        past_or_refuse (opt_string doc (codes "protocol_version")) bridge_offline offline_other
          h1 in
      (
        v,
        present,
        λ same.
            let h3 =
              sym (require-then ipc_protocol_mismatch _ ((text_eq_iff v protocol_version).1 same))
              ∙ h2 in
            let h4 = past_require _ bridge_offline offline_other h3 in
            let (timestamp, _, h5) =
              past_or_refuse (opt_i64 fs casts doc (codes "timestamp")) bridge_offline offline_other
                h4 in
            let h6 = past_require _ bridge_offline offline_other h5 in absurd (grind (arith, h6)),
      )

  other-mismatch :
      (doc : Json Float) (now : ℤ) (v : Text)
      → opt_string doc (codes "protocol_version") ≡ some v
      → v ≢ protocol_version
      → parse_heartbeat fs casts doc now ≡ refused ipc_protocol_mismatch
  unfolding parse_heartbeat
  other-mismatch doc now v present other =
      require-then _ _ (member-is_object doc _ _ present)
      ∙ or_refuse-then _ _ present
      ∙ require-else _ _ (different v other)

  -- The protocol is reported as wrong exactly if the document gives a version that is not the
  -- client's, however stale it is and whatever its status.
  pub parse_heartbeat-mismatch_iff :
      (doc : Json Float) (now : ℤ)
      → (parse_heartbeat fs casts doc now ≡ refused ipc_protocol_mismatch) ↔ (
          (v : Text) × (opt_string doc (codes "protocol_version") ≡ some v)
          × (v ≢ protocol_version))
  parse_heartbeat-mismatch_iff doc now =
      (mismatch-other doc now, λ p. other-mismatch doc now p.0 p.1 p.2)
