-- ===== src/Ipc/Client/Ends.antt =====
-- The wait of crates/reaper-ipc/src/client.rs ends.
use reapermcp.Qjson.Utf8.{Text}
use reapermcp.Ipc.Result.{Outcome}
use reapermcp.Ipc.Client.{
  Round, Ended, poll, decide, last_look, take_result, await_result, first_wait, next_wait,
}
use reapermcp.Prelude.{
  ℕ, zero, suc, ◌+◌, ◌-◌, ◌*◌, ◌/◌, ◌≤◌, ◌<◌, ◌≡◌, Option, Bool, none, some, min, true, false, refl,
  arith,
}

first_wait-positive : (cap : ℕ) → 0 < cap → 0 < first_wait cap
unfolding first_wait
first_wait-positive cap h = ground (arith, h)

first_wait-le : (cap : ℕ) → first_wait cap ≤ cap
unfolding first_wait
first_wait-le cap = ground arith

last_look-looks :
    {F : Type 0} (k now : ℕ) (a : Option (Outcome F)) (d : Bool) → (last_look k now a d).looks ≡ k
unfolding last_look
last_look-looks k now none d = refl
last_look-looks k now (some o) d = refl

-- There is a result within a number of looks.
abbrev Ends : {F : Type 0} → Option (Ended F) → ℕ → Type 0
Ends {F} o n = (e : Ended F) × (o ≡ some e) × (e.looks ≤ n)

module _ {F : Type 0} (max_result_bytes : ℕ) (id : Text) (env : ℕ → Round F) where
  decide-Ends :
      (k now n : ℕ) (a : Option (Outcome F)) (d c x : Bool) (rest : Option (Ended F))
      → suc k ≤ n
      → (a ≡ none → c ≡ false → x ≡ false → Ends rest n)
      → Ends (decide max_result_bytes id env k now a d c x rest) n
  unfolding decide
  decide-Ends k now n (some o) d c x rest h g = (_, refl, omega (arith, h))
  decide-Ends k now n none d true x rest h g = (_, refl, omega (arith, h))
  decide-Ends k now n none d false true rest h g =
      let t = take_result max_result_bytes id (env k).look in
      (_, refl, omega (arith, h, last_look-looks (suc k) now t.answer t.deletes))
  decide-Ends k now n none d false false rest h g = g refl refl refl

-- The deadline is nearer by the sleep, which is at least `w`, or reached.
nearer :
    (w f timeout past now wait : ℕ)
    → w ≤ wait
    → timeout ≤ past + suc f * w
    → past ≤ now
    → timeout ≤ now + min wait (timeout - now) + f * w
nearer w f timeout past now wait h enough later =
    let e : timeout ≤ past + (w + f * w) = omega (arith, enough) in ground (arith, h, e, later)

grows : (w cap wait : ℕ) → w ≤ cap → w ≤ wait → w ≤ next_wait cap wait
grows w cap wait h k = ground (arith, h, k)

fits : (t w : ℕ) → 0 < w → t ≤ 0 + (t / w + 1) * w
fits t w h = grind arith

module _ {F : Type 0} (timeout cap max_result_bytes : ℕ) (id : Text) (env : ℕ → Round F) where
  -- With a sleep of at least `w` in each round.
  poll-Ends :
      (w f k past wait : ℕ)
      → w ≤ cap
      → w ≤ wait
      → timeout ≤ past + f * w
      → Ends (poll timeout cap max_result_bytes id env (suc f) k past wait) (suc (suc (k + f)))
  unfolding poll
  poll-Ends w zero k past wait small start enough =
      decide-Ends max_result_bytes id env (suc k) (past + (env k).lag) _ _ _ _ _ _ (omega arith)
        (λ _ _ before. absurd (ground (arith, enough, before)))
  poll-Ends w (suc f) k past wait small start enough =
      let now = past + (env k).lag in
      decide-Ends max_result_bytes id env (suc k) now _ _ _ _ _ _ (omega arith) (λ _ _ before.
        let (e, h, looks) =
          poll-Ends w f (suc k) (now + min wait (timeout - now)) (next_wait cap wait) small
            (grows w cap wait small start)
            (nearer w f timeout past now wait start enough (omega arith)) in
        (e, h, omega (arith, looks)))

  -- The wait for a result always ends if the poll interval is not zero, after at most three looks
  -- more than the first wait fits into the timeout.
  pub await_result-ends :
      0 < cap
      → (e : Ended F) × (await_result timeout cap max_result_bytes id env ≡ some e)
        × (e.looks ≤ timeout / first_wait cap + 3)
  unfolding await_result
  await_result-ends h =
      let w = first_wait cap in
      let (e, same, looks) =
        poll-Ends w (timeout / w + 1) 0 0 w (first_wait-le cap) (omega arith)
          (fits timeout w (first_wait-positive cap h)) in
      (e, same, omega (arith, looks))
