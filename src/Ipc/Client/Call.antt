-- ===== src/Ipc/Client/Call.antt =====
-- `BridgeClient::call` of crates/reaper-ipc/src/client.rs, with `mint_request_id` and
-- `publish_command`: from the checks before a command is written to the outcome. What the files, the
-- clock and the id generator give is the record `Setting`.
pub mod Ready
pub mod Tests
use reapermcp.Qjson.Json.{Json}
use reapermcp.Qjson.Json.Fields.{Casts}
use reapermcp.Qjson.Json.Pretty.{serialize}
use reapermcp.Qjson.Floats.{Floats}
use reapermcp.Qjson.Utf8.{Text, encode}
use reapermcp.Ipc.Config.{Config}
use reapermcp.Ipc.Failure.{code_text, internal_bridge_error}
use reapermcp.Ipc.Heartbeat.{Heartbeat, parse_heartbeat}
use reapermcp.Ipc.Protocol.{
  Verdict, accepted, refused, is_safe_id, max_request_id_len, malformed_request, bridge_offline,
  payload_too_large,
}
use reapermcp.Ipc.Request.{ExpectedProject, RequestEnvelope, build, to_json}
use reapermcp.Ipc.Result.{◌>>=◌, ◌>>◌, Attempt, Outcome, parsed, broken, local_error, check}
use reapermcp.Ipc.Client.{
  Round, Ended, Ending, found, cancelled_call, timed_out, await_result, ipc_io_error,
}
use reapermcp.Prelude.Machine.{to_i64}
use reapermcp.Prelude.Int.{ℤ, pos, ◌+ℤ◌}
use reapermcp.Prelude.{
  ℕ, zero, suc, ◌/◌, ◌&&◌, Option, Bool, none, some, codes, ltb, leb, max, not, length, true, false,
  if◌then◌else◌,
}

abbrev pub ipc_cancelled : Text
ipc_cancelled = codes "IPC_CANCELLED"

abbrev pub ipc_timeout : Text
ipc_timeout = codes "IPC_TIMEOUT"

pub record Setting (F : Type 0) : Type 0 where
  pub cancelled_before : Bool
  -- what heartbeat.json parses to, if it can be read and parsed, and the time of that
  pub heartbeat : Option (Json F)
  pub heartbeat_now : ℤ
  pub now : ℤ
  -- the ids that the generator gives, and whether a command file of that name exists
  pub minted : ℕ → Text
  pub occupied : ℕ → Bool
  -- whether the directory is there, the bytes are written, and the file is renamed
  -- how far beyond the start of the wait an `Instant` of the platform reaches
  pub room : ℕ
  pub creates : Bool
  pub writes : Bool
  pub renames : Bool
  pub rounds : ℕ → Round F

-- How a call ended, and the command that it published, if it did.
pub record Called (F : Type 0) : Type 0 where
  pub outcome : Outcome F
  pub command : Option (RequestEnvelope F)

abbrev pub nanos : ℕ
nanos = 1000000000

unfoldable pub attempt : {A : Type 0} → Verdict A → Attempt A
attempt (accepted a) = parsed a
attempt (refused e) = broken (code_text e)

unfoldable pub outcome_of : {F : Type 0} → Ending F → Outcome F
outcome_of (found o) = o
outcome_of cancelled_call = local_error ipc_cancelled
outcome_of timed_out = local_error ipc_timeout

module _ {F : Type 0} (s : Setting F) where
  -- `n` tries are left of the eight.
  unfoldable pub mint_request_id : ℕ → ℕ → Attempt Text
  mint_request_id zero i = broken internal_bridge_error
  mint_request_id (suc n) i =
      let rest = mint_request_id n (suc i) in
      check (is_safe_id (encode (s.minted i)) max_request_id_len) (code_text malformed_request)
      >> (if s.occupied i then rest else parsed (s.minted i))

  unfoldable pub publishes : Bool
  publishes = s.creates && s.writes && s.renames

-- `as_secs().max(1) as i64`
unfoldable pub timeout_secs : Config → ℤ
timeout_secs cfg = to_i64 (pos (max (cfg.request_timeout / nanos) 1))

-- What comes of a request, whether it was published or not.
unfoldable pub sent : {F : Type 0} → Bool → RequestEnvelope F → Option (Ended F) → Option (Called F)
sent false r o = some (record { outcome = local_error ipc_io_error; command = none })
sent true r none = none
sent true r (some e) = some (record { outcome = outcome_of e.ending; command = some r })

module _ (fs : Floats) (casts : Casts fs) where
  open fs use {Float}

  unfoldable pub read_heartbeat : Option (Json Float) → ℤ → Attempt (Heartbeat Float)
  read_heartbeat none now = broken (code_text bridge_offline)
  read_heartbeat (some doc) now = attempt (parse_heartbeat fs casts doc now)

  -- Everything before the command is written.
  unfoldable pub prepare :
      Config
      → Setting Float
      → Text
      → Json Float
      → Option ExpectedProject
      → Attempt (RequestEnvelope Float)
  prepare cfg s command payload expected = do
    check (not s.cancelled_before) ipc_cancelled
    online ← read_heartbeat s.heartbeat s.heartbeat_now
    id ← mint_request_id s 8 0
    r ← attempt (
        build id cfg.instance_token command payload expected s.now
          (to_i64 (s.now +ℤ timeout_secs cfg)))
    check (leb (length (serialize fs (to_json r))) cfg.max_request_bytes)
        (code_text payload_too_large)
    parsed r

  -- A deadline that no `Instant` can hold stops the program.
  unfoldable pub waits : Config → Setting Float → Text → Option (Ended Float)
  waits cfg s id =
      if ltb s.room cfg.request_timeout
      then none
      else await_result cfg.request_timeout cfg.poll_interval cfg.max_result_bytes id s.rounds

  unfoldable pub send :
      Config → Setting Float → Attempt (RequestEnvelope Float) → Option (Called Float)
  send cfg s (broken c) = some (record { outcome = local_error c; command = none })
  send cfg s (parsed r) = sent (publishes s) r (waits cfg s r.request_id)

  unfoldable pub call :
      Config → Setting Float → Text → Json Float → Option ExpectedProject → Option (Called Float)
  call cfg s command payload expected = send cfg s (prepare cfg s command payload expected)
