-- ===== src/Ipc/Bridge.antt =====
-- The bridge of crates/reaper-ipc/src/testing.rs, which handles requests as the script in REAPER does:
-- what it keeps of them, one request after the other. Its files and its clock are inputs.
pub mod Replay
use reapermcp.Ipc.Protocol.Envelope.{validate_envelope}
use reapermcp.Prelude.Int.{ℤ}
use reapermcp.Qjson.Json.{Json}
use reapermcp.Qjson.Utf8.{Text, encode}
use reapermcp.Prelude.{
  List, suc, ℕ, Bool, Option, if◌then◌else◌, some, ◌++◌, not, ltb, ◌∷◌, [], none,
}
use reapermcp.Ipc.Protocol.{
  refused, accepted, ValidatedRequest, ValidationContext, Verdict, is_safe_id, max_request_bytes,
  payload_too_large, max_request_id_len, malformed_request,
}

-- `FakeState`: the ids of the requests that were accepted, the counters, and the names of the files
-- that were put aside.
pub record State : Type 0 where
  pub seen : List Text
  pub claimed : ℕ
  pub processed : ℕ
  pub failed : ℕ
  pub quarantined : List Text

pub data Response : Type 0 where
  answered failing silent : Response

-- The bytes of a file: no UTF-8, no JSON, or the document that they parse to.
pub data Body (F : Type 0) : Type 0 where
  garbled unparsed : Body F
  document : Json F → Body F

-- A file of `commands/`, with what `process_one` finds: whether the rename that claims it succeeds,
-- its bytes, their number, and the time.
pub record Request (F : Type 0) : Type 0 where
  pub name : Text
  pub stem : Text
  pub claim_succeeds : Bool
  pub body : Body F
  pub size : ℕ
  pub now : ℤ

abbrev pub start : State
start = record { seen = List.[]; claimed = 0; processed = 0; failed = 0; quarantined = List.[] }

-- The responder answers, fails or stays silent.
unfoldable pub respond : Response → State → State
respond answered b = record b { processed = suc b.processed }
respond failing b = record b { failed = suc b.failed }
respond silent b = b

module _ {F : Type 0} (instance_token bridge_version : Text)
    (responder : ValidatedRequest F → Response) where
  abbrev pub context : Request F → State → ValidationContext
  context r b = record {
    instance_token = instance_token;
    now = r.now;
    request_id_hint = some r.stem;
    seen = b.seen;
    raw_size = some r.size;
    bridge_version = bridge_version;
  }

  -- A text that does not parse is refused for its size or as malformed.
  unfoldable pub verdict : Body F → ValidationContext → ℕ → Verdict (ValidatedRequest F)
  verdict garbled ctx size = refused malformed_request
  verdict unparsed ctx size =
      if ltb max_request_bytes size then refused payload_too_large else refused malformed_request
  verdict (document doc) ctx size = validate_envelope doc ctx

  unfoldable pub finish : Verdict (ValidatedRequest F) → State → State
  finish (refused e) b = respond failing b
  finish (accepted req) b =
      respond (responder req) (record b { seen = b.seen ++ req.request_id ∷ [] })

  -- `process_one`, as far as the state goes.
  unfoldable pub process : Request F → State → State
  process r b =
      if not (is_safe_id (encode r.stem) max_request_id_len)
      then record b { quarantined = b.quarantined ++ r.name ∷ [] }
      else if r.claim_succeeds
      then finish (verdict r.body (context r b) r.size) (record b { claimed = suc b.claimed })
      else b

  -- A run of the bridge over some requests.
  pub data Run : State → State → Type 0 where
    stop : {b : State} → Run b b
    next : {b c : State} (r : Request F) → Run (process r b) c → Run b c
