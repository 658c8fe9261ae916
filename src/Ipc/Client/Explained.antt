-- ===== src/Ipc/Client/Explained.antt =====
-- How the wait of crates/reaper-ipc/src/client.rs ends, and why.
use mathlib.Core.Option.{some-injective}
use reapermcp.Qjson.Utf8.{Text}
use reapermcp.Ipc.Result.{Outcome}
use reapermcp.Ipc.Client.{
  Round, Ended, Taken, found, cancelled_call, timed_out, poll, decide, last_look, take_result,
  await_result, first_wait, next_wait, ended,
}
use reapermcp.Prelude.{
  ℕ, zero, suc, ◌+◌, ◌-◌, ◌≤◌, ◌<◌, ◌≡◌, Option, Bool, none, some, leb, min, true, false, refl,
  arith, dec_lt, subst, leb→le,
}

module _ {F : Type 0} (timeout cap max_result_bytes : ℕ) (id : Text) (env : ℕ → Round F) where
  abbrev pub taken : ℕ → Taken F
  taken j = take_result max_result_bytes id (env j).look

  -- The looks before look `m` found nothing, and none of their rounds was cancelled.
  abbrev pub Quiet : ℕ → Type 0
  Quiet m = (j : ℕ) → j < m → ((taken j).answer ≡ none) × ((env j).cancelled ≡ false)

  -- When the sleep before look `k` has ended, and the next wait.
  abbrev pub reached : ℕ → ℕ × ℕ
  reached zero = (0, first_wait cap)
  reached (suc k) =
      let (past, wait) = reached k in
      let now = past + (env k).lag in (now + min wait (timeout - now), next_wait cap wait)

  -- The time of look `k`.
  abbrev pub clock : ℕ → ℕ
  clock k = (reached k).0 + (env k).lag

  -- A wait ends with the answer of its last look, all that came before being quiet; or by the
  -- cancel flag behind a look that found nothing; or by the deadline, which had passed at look `m`,
  -- and behind that look one more found nothing. In the last two cases, and only then, the client takes its command back.
  pub data IsExplained (e : Ended F) : Type 0 where
    by_result :
        (m : ℕ) (o : Outcome F)
        → Quiet m
        → (taken m).answer ≡ some o
        → e ≡ ended (found o) (suc m) e.elapsed (taken m).deletes false
        → IsExplained e
    by_cancel :
        (m : ℕ)
        → Quiet m
        → (taken m).answer ≡ none
        → (env m).cancelled ≡ true
        → e ≡ ended cancelled_call (suc m) e.elapsed false true
        → IsExplained e
    by_deadline :
        (m : ℕ)
        → Quiet (suc m)
        → timeout ≤ clock m
        → (taken (suc m)).answer ≡ none
        → e ≡ ended timed_out (suc (suc m)) (clock m) false true
        → IsExplained e

  last_look-IsExplained :
      (m : ℕ)
      → Quiet (suc m)
      → timeout ≤ clock m
      → IsExplained
          (last_look (suc (suc m)) (clock m) (taken (suc m)).answer (taken (suc m)).deletes)
  unfolding last_look
  last_look-IsExplained m q late = by_answer (taken (suc m)).answer refl
    where
      by_answer :
          (a : Option (Outcome F))
          → (taken (suc m)).answer ≡ a
          → IsExplained (last_look (suc (suc m)) (clock m) a (taken (suc m)).deletes)
      by_answer none h = by_deadline m q late h refl
      by_answer (some o) h = by_result (suc m) o q h refl

  Quiet-more :
      (k : ℕ) → Quiet k → (taken k).answer ≡ none → (env k).cancelled ≡ false → Quiet (suc k)
  Quiet-more k q a c j h = elim (dec_lt j k) [
    | yes below ↦ q j below
    | no last ↦ let e : j ≡ k = omega (arith, h, last) in rw e (a, c)
  ]

  decide-IsExplained :
      (k : ℕ) (a : Option (Outcome F)) (c x : Bool) (rest : Option (Ended F)) (e : Ended F)
      → Quiet k
      → (taken k).answer ≡ a
      → (env k).cancelled ≡ c
      → (x ≡ true → timeout ≤ clock k)
      → (Quiet (suc k) → rest ≡ some e → IsExplained e)
      → decide max_result_bytes id env (suc k) (clock k) a (taken k).deletes c x rest ≡ some e
      → IsExplained e
  unfolding decide
  decide-IsExplained k (some o) c x rest e q ha hc late g h =
      subst IsExplained (some-injective _ _ h) (by_result k o q ha refl)
  decide-IsExplained k none true x rest e q ha hc late g h =
      subst IsExplained (some-injective _ _ h) (by_cancel k q ha hc refl)
  decide-IsExplained k none false true rest e q ha hc late g h =
      subst IsExplained (some-injective _ _ h)
        (last_look-IsExplained k (Quiet-more k q ha hc) (late refl))
  decide-IsExplained k none false false rest e q ha hc late g h = g (Quiet-more k q ha hc) h

  poll-IsExplained :
      (f k : ℕ) (e : Ended F)
      → Quiet k
      → poll timeout cap max_result_bytes id env f k (reached k).0 (reached k).1 ≡ some e
      → IsExplained e
  unfolding poll
  poll-IsExplained zero k e q h = absurd (grind (arith, h))
  poll-IsExplained (suc f) k e q h =
      decide-IsExplained k (taken k).answer (env k).cancelled (leb timeout (clock k)) _ e q refl
        refl (leb→le timeout (clock k)) (λ q' rest. poll-IsExplained f (suc k) e q' rest) h

  -- However the wait for a result ends, it ends for a reason: the last look found the answer that
  -- is given, or the call was cancelled, or the deadline had passed at the look before the last and
  -- the last look found none either; before that nothing was found and nothing cancelled. Its own command file is taken back in the last two cases only.
  pub await_result-IsExplained :
      (e : Ended F) → await_result timeout cap max_result_bytes id env ≡ some e → IsExplained e
  unfolding await_result
  await_result-IsExplained e h = poll-IsExplained _ 0 e (λ j lt. absurd (omega (arith, lt))) h
