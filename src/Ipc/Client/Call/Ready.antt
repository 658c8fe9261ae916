-- ===== src/Ipc/Client/Call/Ready.antt =====
-- What a call of crates/reaper-ipc/src/client.rs has made sure of before it writes a command, and that
-- it returns.
use reapermcp.Ipc.Config.{validate, validate-IsUsable}
use mathlib.Core.Option.{some-injective}
use reapermcp.Qjson.Json.{Json}
use reapermcp.Qjson.Json.Fields.{Casts}
use reapermcp.Qjson.Json.Pretty.{serialize}
use reapermcp.Qjson.Floats.{Floats}
use reapermcp.Qjson.Utf8.{Text, encode}
use reapermcp.Ipc.Failure.{code_text}
use reapermcp.Ipc.Heartbeat.{Heartbeat, parse_heartbeat}
use reapermcp.Ipc.Protocol.{
  Verdict, accepted, refused, is_safe_id, max_request_id_len, malformed_request, payload_too_large,
}
use reapermcp.Ipc.Request.{ExpectedProject, RequestEnvelope, build, to_json}
use reapermcp.Ipc.Result.Steps.{behind, passed}
use reapermcp.Ipc.Result.{Attempt, parsed, broken}
use reapermcp.Ipc.Client.Ends.{await_result-ends}
use reapermcp.Ipc.Client.{Ended}
use reapermcp.Ipc.Client.Call.{
  Config, Setting, Called, waits, attempt, mint_request_id, publishes, read_heartbeat, prepare,
  send, call, ipc_cancelled, sent, timeout_secs,
}
use reapermcp.Prelude.Machine.{to_i64}
use reapermcp.Prelude.Int.{ℤ, ◌+ℤ◌}
use reapermcp.Prelude.{
  ℕ, zero, suc, ◌<◌, ◌≤◌, ◌≡◌, ◌≢◌, Option, Bool, none, some, not, length, true, false, refl, arith,
  if◌then◌else◌, ap, ◌∙◌, leb→le, inl, inr, ◌⊎◌, ltb,
}

attempt-accepted : {A : Type 0} (v : Verdict A) (a : A) → attempt v ≡ parsed a → v ≡ accepted a
unfolding attempt
attempt-accepted (accepted b) a h = grind (arith, h)
attempt-accepted (refused e) a h = absurd (grind (arith, h))

chosen :
    {A : Type 0} (t : Bool) {rest : Attempt A} {x a : A}
    → (if t then rest else parsed x) ≡ parsed a
    → ((t ≡ true) × (rest ≡ parsed a)) ⊎ ((t ≡ false) × (x ≡ a))
chosen true h = inl (refl, h)
chosen false h = inr (refl, grind (arith, h))

-- The id is the first of the eight that is free, and it is safe.
mint-free :
    {F : Type 0} (s : Setting F) (n i : ℕ) (id : Text)
    → mint_request_id s n i ≡ parsed id
    → (k : ℕ) × (s.minted k ≡ id)
      × (s.occupied k ≡ false)
      × (is_safe_id (encode id) max_request_id_len ≡ true)
unfolding mint_request_id
mint-free s zero i id h = absurd (grind (arith, h))
mint-free s (suc n) i id h =
    let (safe, h1) =
      passed (is_safe_id (encode (s.minted i)) max_request_id_len) (code_text malformed_request)
        h in
    elim (chosen (s.occupied i) h1) [
      | inl (_, later) ↦ mint-free s n (suc i) id later
      | inr (free, same) ↦ (i, same, free, rw (← same) safe)
    ]

none-some : {A : Type 0} {a : A} → none ≢ some a
none-some h = grind (arith, h)

sent-command :
    {F : Type 0} (b : Bool) (q : RequestEnvelope F) (o : Option (Ended F)) (c : Called F)
    (r : RequestEnvelope F)
    → sent b q o ≡ some c
    → c.command ≡ some r
    → q ≡ r
unfolding sent
sent-command {F} false q o c r h e =
    absurd (none-some (ap (λ (c : Called F). c.command) (some-injective _ _ h) ∙ e))
sent-command true q none c r h e = absurd (none-some h)
sent-command {F} true q (some x) c r h e =
    some-injective _ _ (ap (λ (c : Called F). c.command) (some-injective _ _ h) ∙ e)

le-ltb : (a b : ℕ) → b ≤ a → ltb a b ≡ false
le-ltb a b h = ground (arith, h)

module _ (fs : Floats) (casts : Casts fs) where
  open fs use {Float}

  -- The call was not cancelled, the bridge is online, the id is safe and names no command file,
  -- the request is one that `build` makes of the arguments, and it is not above the limit. The
  -- expiry is that of the i64 arithmetic, which wraps around.
  pub record IsReady (cfg : Config) (s : Setting Float) (command : Text) (payload : Json Float)
      (expected : Option ExpectedProject) (r : RequestEnvelope Float) : Type 0 where
    pub wanted : s.cancelled_before ≡ false
    pub beat : Json Float
    pub alive : Heartbeat Float
    pub read : s.heartbeat ≡ some beat
    pub online : parse_heartbeat fs casts beat s.heartbeat_now ≡ accepted alive
    pub try : ℕ
    pub free : s.occupied try ≡ false
    pub safe : is_safe_id (encode (s.minted try)) max_request_id_len ≡ true
    pub built :
        build
          (s.minted try)
          cfg.instance_token
          command
          payload
          expected
          s.now
          (to_i64 (s.now +ℤ timeout_secs cfg))
        ≡ accepted r
    pub small : length (serialize fs (to_json r)) ≤ cfg.max_request_bytes

  read_heartbeat-alive :
      (o : Option (Json Float)) (now : ℤ) (h : Heartbeat Float)
      → read_heartbeat fs casts o now ≡ parsed h
      → (doc : Json Float) × (o ≡ some doc) × (parse_heartbeat fs casts doc now ≡ accepted h)
  unfolding read_heartbeat
  read_heartbeat-alive none now h e = absurd (grind (arith, e))
  read_heartbeat-alive (some doc) now h e = (doc, refl, attempt-accepted _ h e)

  not-true : (b : Bool) → not b ≡ true → b ≡ false
  not-true true h = absurd (ground (arith, h))
  not-true false h = refl

  prepare-IsReady :
      (cfg : Config) (s : Setting Float) (command : Text) (payload : Json Float)
      (expected : Option ExpectedProject) (r : RequestEnvelope Float)
      → prepare fs casts cfg s command payload expected ≡ parsed r
      → IsReady cfg s command payload expected r
  unfolding prepare
  prepare-IsReady cfg s command payload expected r h =
      let (wanted, h1) = passed (not s.cancelled_before) ipc_cancelled h in
      let (alive, is_read, h2) = behind (read_heartbeat fs casts s.heartbeat s.heartbeat_now) h1 in
      let (beat, present, online) =
        read_heartbeat-alive s.heartbeat s.heartbeat_now alive is_read in
      let (id, minted, h3) = behind (mint_request_id s 8 0) h2 in
      let (k, same, free, safe) = mint-free s 8 0 id minted in
      let (q, built, h4) =
        behind
          (attempt (
            build id cfg.instance_token command payload expected s.now
              (to_i64 (s.now +ℤ timeout_secs cfg))))
          h3 in
      let (small, h5) = passed _ (code_text payload_too_large) h4 in
      let e : q ≡ r = grind (arith, h5) in
      record {
        wanted = not-true s.cancelled_before wanted;
        beat = beat;
        alive = alive;
        read = present;
        online = online;
        try = k;
        free = free;
        safe = rw same safe;
        built = rw (same, attempt-accepted _ q built) (ap accepted e);
        small = rw (← e) (leb→le _ _ small);
      }

  send-command :
      (cfg : Config) (s : Setting Float) (a : Attempt (RequestEnvelope Float)) (c : Called Float)
      (r : RequestEnvelope Float)
      → send fs casts cfg s a ≡ some c
      → c.command ≡ some r
      → a ≡ parsed r
  unfolding send
  send-command cfg s (broken x) c r h e =
      absurd (none-some (ap (λ (c : Called Float). c.command) (some-injective _ _ h) ∙ e))
  send-command cfg s (parsed q) c r h e = ap parsed (sent-command (publishes s) q _ c r h e)

  -- A command is written only for a call that is ready: it was not cancelled, the bridge is online by
  -- its heartbeat, the id is safe and names no command that is there, the request is the one built
  -- of the arguments, and its text is not above the limit.
  pub call-IsReady :
      (cfg : Config) (s : Setting Float) (command : Text) (payload : Json Float)
      (expected : Option ExpectedProject) (c : Called Float) (r : RequestEnvelope Float)
      → call fs casts cfg s command payload expected ≡ some c
      → c.command ≡ some r
      → IsReady cfg s command payload expected r
  unfolding call
  call-IsReady cfg s command payload expected c r h e =
      prepare-IsReady cfg s command payload expected r (send-command cfg s _ c r h e)

  send-returns :
      (cfg : Config) (s : Setting Float) (a : Attempt (RequestEnvelope Float))
      → 0 < cfg.poll_interval
      → cfg.request_timeout ≤ s.room
      → (c : Called Float) × (send fs casts cfg s a ≡ some c)
  unfolding send sent waits
  send-returns cfg s (broken x) h fits = (_, refl)
  send-returns cfg s (parsed r) h fits =
      let (e, ends, _) =
        await_result-ends cfg.request_timeout cfg.poll_interval cfg.max_result_bytes r.request_id
          s.rounds h in
      let (c, returns) = answered (publishes s) r e in
      (
        c,
        ap (sent (publishes s) r) (rw (waits, le-ltb s.room cfg.request_timeout fits) ends)
            ∙ returns,
      )
    where
      answered :
          (b : Bool) (r : RequestEnvelope Float) (e : Ended Float)
          → (c : Called Float) × (sent b r (some e) ≡ some c)
      answered false r e = (_, refl)
      answered true r e = (_, refl)

  -- Every call of a client with a valid configuration returns, whatever the files and the bridge do,
  -- if the moment of its timeout is one that an `Instant` of the platform can hold. An i64 wraps
  -- around, as it does in a build without overflow checks.
  pub call-returns :
      (cfg : Config) (s : Setting Float) (command : Text) (payload : Json Float)
      (expected : Option ExpectedProject)
      → validate cfg ≡ accepted true
      → cfg.request_timeout ≤ s.room
      → (c : Called Float) × (call fs casts cfg s command payload expected ≡ some c)
  unfolding call
  call-returns cfg s command payload expected h fits =
      send-returns cfg s _ (validate-IsUsable cfg h).polls fits
