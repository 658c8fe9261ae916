-- ===== src/Ipc/Client/Owned.antt =====
-- Whose results the client of crates/reaper-ipc/src/client.rs returns.
use mathlib.Core.Option.{some-injective}
use reapermcp.Qjson.Json.{Json}
use reapermcp.Qjson.Utf8.{Text}
use reapermcp.Ipc.Result.{Outcome, value, local_error}
use reapermcp.Ipc.Result.Own.{IsOwn, interpret-IsOwn}
use reapermcp.Ipc.Client.Explained.{
  IsExplained, await_result-IsExplained, by_result, by_cancel, by_deadline,
}
use reapermcp.Ipc.Client.{
  Round, Ended, Ending, Look, Content, found, cancelled_call, timed_out, absent, gone, unsized,
  sized, vanished, unreadable, contents, take_result, take_content, await_result,
}
use reapermcp.Prelude.{ℕ, ◌≤◌, ◌≡◌, some, ltb, ap, sym, arith, ◌∙◌, inl, inr, Bool-cases, ◌≢◌}

no_value : {F : Type 0} {c : Text} {v : Json F} → local_error c ≢ value v
no_value h = grind (arith, h)

found_inj : {F : Type 0} {o p : Outcome F} → Path (Ending F) (found o) (found p) → o ≡ p
found_inj h = grind (arith, h)

cancelled_found : {F : Type 0} {o : Outcome F} → cancelled_call ≢ found o
cancelled_found h = grind (arith, h)

late_found : {F : Type 0} {o : Outcome F} → timed_out ≢ found o
late_found h = grind (arith, h)

module _ {F : Type 0} (max_result_bytes : ℕ) (id : Text) where
  -- The look found a file within the limit, whose document is this request's own result.
  pub record IsOwnLook (l : Look F) (v : Json F) : Type 0 where
    pub len : ℕ
    pub doc : Json F
    pub seen : l ≡ sized len (contents (some doc))
    pub fits : len ≤ max_result_bytes
    pub own : IsOwn doc id v

  take_content-own :
      (len : ℕ) (c : Content F) (v : Json F)
      → len ≤ max_result_bytes
      → (take_content max_result_bytes id c).answer ≡ some (value v)
      → IsOwnLook (sized len c) v
  unfolding take_content
  take_content-own len vanished v small h = absurd (grind (arith, h))
  take_content-own len unreadable v small h = absurd (no_value (some-injective _ _ h))
  take_content-own len (contents o) v small h =
      let (doc, parses, own) = interpret-IsOwn id o v (some-injective _ _ h) in
      record {
        len = len;
        doc = doc;
        seen = ap (λ o. sized len (contents o)) parses;
        fits = small;
        own = own;
      }

  take_result-own :
      (l : Look F) (v : Json F)
      → (take_result max_result_bytes id l).answer ≡ some (value v)
      → IsOwnLook l v
  unfolding take_result
  take_result-own absent v h = absurd (grind (arith, h))
  take_result-own gone v h = absurd (grind (arith, h))
  take_result-own unsized v h = absurd (no_value (some-injective _ _ h))
  take_result-own (sized len c) v h = elim (Bool-cases (ltb max_result_bytes len)) [
    | inl e ↦ absurd (no_value (some-injective _ _ (rw e at h)))
    | inr e ↦ take_content-own len c v (ground (arith, e)) (rw e at h)
  ]

  module _ (timeout cap : ℕ) (env : ℕ → Round F) where
    value_seen :
        (e : Ended F) (v : Json F)
        → IsExplained timeout cap max_result_bytes id env e
        → e.ending ≡ found (value v)
        → (m : ℕ) × IsOwnLook (env m).look v
    value_seen e v (by_result m o quiet answer same) h =
        let o_value : o ≡ value v = found_inj (sym (ap (λ (e : Ended F). e.ending) same) ∙ h) in
        (m, take_result-own (env m).look v (answer ∙ ap some o_value))
    value_seen e v (by_cancel m quiet answer flag same) h =
        absurd (cancelled_found (sym (ap (λ (e : Ended F). e.ending) same) ∙ h))
    value_seen e v (by_deadline m quiet answer late same) h =
        absurd (late_found (sym (ap (λ (e : Ended F). e.ending) same) ∙ h))

    -- A value that the wait gives was read from the result file of this request, in one of the
    -- looks: the file was within the limit, and its document declares the protocol's version, has
    -- this request's id, says ok, carries no error and has the value as its result.
    pub await_result-own :
        (e : Ended F) (v : Json F)
        → await_result timeout cap max_result_bytes id env ≡ some e
        → e.ending ≡ found (value v)
        → (m : ℕ) × IsOwnLook (env m).look v
    await_result-own e v h =
        value_seen e v (await_result-IsExplained timeout cap max_result_bytes id env e h)
