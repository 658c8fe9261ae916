-- ===== src/Ipc/Config.antt =====
-- `IpcConfig` of crates/reaper-ipc/src/config.rs with `validate`. The durations are nanoseconds; what
-- the path library says of `ipc_dir` are two of the fields.
use reapermcp.Ipc.Protocol.Steps.{passed}
use reapermcp.Ipc.Protocol.{
  ◌>>◌, Verdict, accepted, require, malformed_request, invalid_instance_token, max_request_bytes,
}
use reapermcp.Ipc.Reply.{max_result_bytes}
use reapermcp.Prelude.Decimal.{Bytes}
use reapermcp.Qjson.Utf8.{Text, encode}
use reapermcp.Prelude.{
  ℕ, ◌<◌, ◌≤◌, ◌≡◌, Bool, length, not, leb, ltb, ◌==◌, ◌||◌, true, false, [], ◌∷◌, arith,
}

abbrev pub max_string_len : ℕ
max_string_len = 512

pub record Config : Type 0 where
  -- whether the path has no component, and whether one of them is `..`
  pub dir_empty : Bool
  pub dir_escapes : Bool
  pub instance_token : Text
  pub request_timeout : ℕ
  pub poll_interval : ℕ
  pub max_request_bytes : ℕ
  pub max_result_bytes : ℕ

-- `bytes().any(|b| b < 0x20 || b == 0x7f)`
unfoldable pub has_control : Bytes → Bool
has_control [] = false
has_control (b ∷ s) = ltb b 0x20 || b == 0x7f || has_control s

unfoldable pub validate : Config → Verdict Bool
validate cfg = do
  require (not cfg.dir_empty) malformed_request
  require (not cfg.dir_escapes) malformed_request
  require (not (length cfg.instance_token == 0)) invalid_instance_token
  require (leb (length (encode cfg.instance_token)) max_string_len) invalid_instance_token
  require (not (has_control (encode cfg.instance_token))) invalid_instance_token
  require (not (cfg.request_timeout == 0)) malformed_request
  require (not (cfg.poll_interval == 0)) malformed_request
  require (not (cfg.max_request_bytes == 0 || ltb max_request_bytes cfg.max_request_bytes))
      malformed_request
  require (not (cfg.max_result_bytes == 0 || ltb max_result_bytes cfg.max_result_bytes))
      malformed_request
  accepted true

-- What a valid configuration gives the client.
pub record IsUsable (cfg : Config) : Type 0 where
  pub waits : 0 < cfg.request_timeout
  pub polls : 0 < cfg.poll_interval
  pub requests : cfg.max_request_bytes ≤ max_request_bytes
  pub results : cfg.max_result_bytes ≤ max_result_bytes

pub validate-IsUsable : (cfg : Config) → validate cfg ≡ accepted true → IsUsable cfg
unfolding validate
validate-IsUsable cfg h =
    let (_, h1) = passed _ malformed_request h in
    let (_, h2) = passed _ malformed_request h1 in
    let (_, h3) = passed _ invalid_instance_token h2 in
    let (_, h4) = passed _ invalid_instance_token h3 in
    let (_, h5) = passed _ invalid_instance_token h4 in
    let (waits, h6) = passed (not (cfg.request_timeout == 0)) malformed_request h5 in
    let (polls, h7) = passed (not (cfg.poll_interval == 0)) malformed_request h6 in
    let (requests, h8) =
      passed (not (cfg.max_request_bytes == 0 || ltb max_request_bytes cfg.max_request_bytes))
        malformed_request h7 in
    let (results, h9) =
      passed (not (cfg.max_result_bytes == 0 || ltb max_result_bytes cfg.max_result_bytes))
        malformed_request h8 in
    record {
      waits = ground (arith, waits);
      polls = ground (arith, polls);
      requests = ground (arith, requests);
      results = ground (arith, results);
    }
