-- ===== src/Ipc/Client.antt =====
-- The waiting side of `BridgeClient` in crates/reaper-ipc/src/client.rs: `take_result`,
-- `await_result`, `cleanup_unclaimed` and `discard_result`. Times are nanoseconds. What the client
-- finds in the directories, the cancel flag and the delays of the machine are inputs.
pub mod Ends
pub mod Explained
pub mod Owned
pub mod Tests
pub mod Call
use reapermcp.Qjson.Json.{Json}
use reapermcp.Qjson.Utf8.{Text}
use reapermcp.Ipc.Failure.{result_too_large}
use reapermcp.Ipc.Result.{Outcome, interpret, local_error}
use reapermcp.Prelude.{
  ℕ, zero, suc, ◌+◌, ◌-◌, ◌*◌, ◌/◌, Option, Bool, none, some, codes, ltb, leb, min, max, true,
  false, if◌then◌else◌,
}

abbrev pub ipc_io_error : Text
ipc_io_error = codes "IPC_IO_ERROR"

-- The bytes of a result file: gone, unreadable, or read, with what they parse to, if they do.
pub data Content (F : Type 0) : Type 0 where
  vanished unreadable : Content F
  contents : Option (Json F) → Content F

-- What `exists` and `file_len` say of the result file.
pub data Look (F : Type 0) : Type 0 where
  absent gone unsized : Look F
  sized : ℕ → Content F → Look F

-- What `take_result` makes of it, and whether it deletes the file.
pub record Taken (F : Type 0) : Type 0 where
  pub answer : Option (Outcome F)
  pub deletes : Bool

module _ {F : Type 0} (max_result_bytes : ℕ) (id : Text) where
  unfoldable pub take_content : Content F → Taken F
  take_content vanished = record { answer = none; deletes = false }
  take_content unreadable = record { answer = some (local_error ipc_io_error); deletes = false }
  take_content (contents doc) = record { answer = some (interpret id doc); deletes = true }

  unfoldable pub take_result : Look F → Taken F
  take_result absent = record { answer = none; deletes = false }
  take_result gone = record { answer = none; deletes = false }
  take_result unsized = record { answer = some (local_error ipc_io_error); deletes = false }
  take_result (sized len c) =
      if ltb max_result_bytes len
      then record { answer = some (local_error result_too_large); deletes = true }
      else take_content c

-- `discard_result`: whether a file was found, and so deleted.
unfoldable pub discard_result : {F : Type 0} → Look F → Bool
discard_result absent = false
discard_result _ = true

-- A round of the loop: the look, the cancel flag, and the time that passes beyond the sleep.
pub record Round (F : Type 0) : Type 0 where
  pub look : Look F
  pub cancelled : Bool
  pub lag : ℕ

pub data Ending (F : Type 0) : Type 0 where
  found : Outcome F → Ending F
  cancelled_call timed_out : Ending F

-- How the wait ended: after how many looks and what time, and whether the last look deleted the
-- result and the client removed its own command file, if that was still there.
pub record Ended (F : Type 0) : Type 0 where
  pub ending : Ending F
  pub looks : ℕ
  pub elapsed : ℕ
  pub deletes : Bool
  pub cleans : Bool

abbrev pub ms : ℕ
ms = 1000000

-- The wait before the second look, and how it grows.
unfoldable pub first_wait : ℕ → ℕ
first_wait cap = min (max (cap / 10) ms) cap

abbrev pub next_wait : ℕ → ℕ → ℕ
next_wait cap wait = min (wait * 2) cap

module _ {F : Type 0} where
  abbrev pub ended : Ending F → ℕ → ℕ → Bool → Bool → Ended F
  ended e k now deletes cleans = record {
    ending = e;
    looks = k;
    elapsed = now;
    deletes = deletes;
    cleans = cleans;
  }

  -- The look behind the deadline.
  unfoldable pub last_look : ℕ → ℕ → Option (Outcome F) → Bool → Ended F
  last_look k now (some o) deletes = ended (found o) k now deletes false
  last_look k now none deletes = ended timed_out k now false true

module _ {F : Type 0} (max_result_bytes : ℕ) (id : Text) (env : ℕ → Round F) where
  -- The steps of a round behind its look: `k` looks were made.
  unfoldable pub decide :
      ℕ → ℕ → Option (Outcome F) → Bool → Bool → Bool → Option (Ended F) → Option (Ended F)
  decide k now (some o) deletes cancelled expired rest = some (ended (found o) k now deletes false)
  decide k now none deletes true expired rest = some (ended cancelled_call k now false true)
  decide k now none deletes false true rest =
      let t = take_result max_result_bytes id (env k).look in
      some (last_look (suc k) now t.answer t.deletes)
  decide k now none deletes false false rest = rest

module _ {F : Type 0} (timeout cap max_result_bytes : ℕ) (id : Text) (env : ℕ → Round F) where
  -- The loop, in round `k` after the sleep has ended at `past`, with the next wait.
  unfoldable pub poll : ℕ → ℕ → ℕ → ℕ → Option (Ended F)
  poll zero k past wait = none
  poll (suc f) k past wait =
      let now = past + (env k).lag in
      let t = take_result max_result_bytes id (env k).look in
      let rest = poll f (suc k) (now + min wait (timeout - now)) (next_wait cap wait) in
      decide max_result_bytes id env (suc k) now t.answer t.deletes (env k).cancelled
        (leb timeout now) rest

  -- The fuel is a bound on the rounds, since every sleep is at least the first one or ends at the
  -- deadline.
  unfoldable pub await_result : Option (Ended F)
  await_result = poll (suc (timeout / first_wait cap + 1)) 0 0 (first_wait cap)
