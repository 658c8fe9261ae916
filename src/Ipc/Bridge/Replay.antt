-- ===== src/Ipc/Bridge/Replay.antt =====
-- The bridge of crates/reaper-ipc/src/testing.rs, which keeps every id, accepts no request twice.
use reapermcp.Qjson.Json.Map.{text_eq_iff}
use reapermcp.Ipc.Protocol.Accepts.{validate_envelope-IsAccepted}
use reapermcp.Qjson.Json.{text_eq}
use reapermcp.Ipc.Bridge.{
  Body, garbled, unparsed, document, State, respond, Response, verdict, finish, process, Request,
  failing, answered, silent, Run, next, stop, context,
}
use reapermcp.Qjson.Utf8.{Text, encode}
use reapermcp.Prelude.{
  List, Bool, ◌∷◌, ◌||◌, ◌≡◌, ◌+◌, ◌++◌, false, [], ◌≤◌, suc, arith, ◌∙◌, refl, true, ℕ, ltb,
  Bool-cases, not, if◌then◌else◌, ◌≢◌, inl, inr, sym, ap,
}
use reapermcp.Ipc.Protocol.{
  refused, accepted, holds, ValidatedRequest, Verdict, ValidationContext, ErrorCode, is_safe_id,
  max_request_bytes, max_request_id_len,
}

unfoldable pub IsDistinct : List Text → Type 0
IsDistinct [] = Unit
IsDistinct (s ∷ ss) = (holds ss s ≡ false) × IsDistinct ss

text_eq_sym : (s t : Text) → text_eq s t ≡ text_eq t s
text_eq_sym [] [] = refl
text_eq_sym [] (d ∷ t) = refl
text_eq_sym (c ∷ s) [] = refl
text_eq_sym (c ∷ s) (d ∷ t) = ground (arith, text_eq_sym s t)

holds-push : (ss : List Text) (u t : Text) → holds (ss ++ u ∷ []) t ≡ (holds ss t || text_eq u t)
unfolding holds
holds-push [] u t = grind arith
holds-push (s ∷ ss) u t = rw (holds-push ss u t) (or_assoc (text_eq s t) (holds ss t) _)
  where
    or_assoc : (x y z : Bool) → (x || (y || z)) ≡ ((x || y) || z)
    or_assoc true y z = refl
    or_assoc false y z = refl

or_false : (x y : Bool) → (x || y) ≡ false → (x ≡ false) × (y ≡ false)
or_false true y h = absurd (ground (arith, h))
or_false false y h = (refl, h)

push-IsDistinct :
    (ss : List Text) (t : Text) → IsDistinct ss → holds ss t ≡ false → IsDistinct (ss ++ t ∷ [])
unfolding IsDistinct holds
push-IsDistinct [] t d h = (refl, record {})
push-IsDistinct (s ∷ ss) t (fresh, d) h =
    let (other, rest) = or_false (text_eq s t) _ h in
    (rw (holds-push ss t s, fresh) (text_eq_sym t s ∙ other), push-IsDistinct ss t d rest)

-- The ids are distinct, and no more requests are finished than were claimed.
pub record IsSound (b : State) : Type 0 where
  pub distinct : IsDistinct b.seen
  pub counted : b.processed + b.failed ≤ b.claimed

respond-IsSound :
    (x : Response) (b : State)
    → IsDistinct b.seen
    → suc (b.processed + b.failed) ≤ b.claimed
    → IsSound (respond x b)
unfolding respond
respond-IsSound answered b d h = record { distinct = d; counted = omega (arith, h) }
respond-IsSound failing b d h = record { distinct = d; counted = omega (arith, h) }
respond-IsSound silent b d h = record { distinct = d; counted = omega (arith, h) }

unparsed_refused :
    {A : Type 0} (t : Bool) (d e : ErrorCode) {v : A}
    → (if t then refused d else refused e) ≢ accepted v
unparsed_refused true d e h = grind (arith, h)
unparsed_refused false d e h = grind (arith, h)

module _ {F : Type 0} (instance_token bridge_version : Text)
    (responder : ValidatedRequest F → Response) where
  accepted_fresh :
      (body : Body F) (ctx : ValidationContext) (size : ℕ) (v : ValidatedRequest F)
      → verdict instance_token bridge_version responder body ctx size ≡ accepted v
      → holds ctx.seen v.request_id ≡ false
  unfolding verdict
  accepted_fresh garbled ctx size v h = absurd (grind (arith, h))
  accepted_fresh unparsed ctx size v h =
      absurd (unparsed_refused (ltb max_request_bytes size) _ _ h)
  accepted_fresh (document doc) ctx size v h = (validate_envelope-IsAccepted doc ctx v h).fresh

  finish-IsSound :
      (w : Verdict (ValidatedRequest F)) (b : State)
      → IsDistinct b.seen
      → suc (b.processed + b.failed) ≤ b.claimed
      → ((v : ValidatedRequest F) → w ≡ accepted v → holds b.seen v.request_id ≡ false)
      → IsSound (finish instance_token bridge_version responder w b)
  unfolding finish
  finish-IsSound (refused e) b d h fresh = respond-IsSound failing b d h
  finish-IsSound (accepted v) b d h fresh =
      respond-IsSound (responder v) _ (push-IsDistinct b.seen v.request_id d (fresh v refl)) h

  process-IsSound :
      (r : Request F) (b : State)
      → IsSound b
      → IsSound (process instance_token bridge_version responder r b)
  unfolding process
  process-IsSound r b h = elim (Bool-cases (not (is_safe_id (encode r.stem) max_request_id_len))) [
    | inl u ↦ rw u (record { distinct = h.distinct; counted = h.counted })
    | inr u ↦ elim (Bool-cases r.claim_succeeds) [
      | inl k ↦
          rw (u, k)
            (finish-IsSound _ (record b { claimed = suc b.claimed }) h.distinct
              (omega (arith, h.counted))
              (accepted_fresh r.body (context instance_token bridge_version responder r b) r.size))
      | inr k ↦ rw (u, k) h
    ]
  ]

  -- In every state that the bridge of testing.rs, which keeps every id, reaches, the ids it has accepted are distinct, and no more
  -- requests are answered or failed than were claimed.
  pub Run-IsSound :
      {b c : State} → Run instance_token bridge_version responder b c → IsSound b → IsSound c
  Run-IsSound stop h = h
  Run-IsSound (next r run) h = Run-IsSound run (process-IsSound r _ h)

  respond-seen : (x : Response) (b : State) → (respond x b).seen ≡ b.seen
  unfolding respond
  respond-seen answered b = refl
  respond-seen failing b = refl
  respond-seen silent b = refl

  finish-keeps :
      (w : Verdict (ValidatedRequest F)) (b : State) (t : Text)
      → holds b.seen t ≡ true
      → holds (finish instance_token bridge_version responder w b).seen t ≡ true
  unfolding finish
  finish-keeps (refused e) b t h = rw (respond-seen failing b) h
  finish-keeps (accepted v) b t h =
      rw
        (
          respond-seen (responder v) (record b { seen = b.seen ++ v.request_id ∷ [] }),
          holds-push b.seen v.request_id t,
          h,
        )
        refl

  process-keeps :
      (r : Request F) (b : State) (t : Text)
      → holds b.seen t ≡ true
      → holds (process instance_token bridge_version responder r b).seen t ≡ true
  unfolding process
  process-keeps r b t h = elim (Bool-cases (not (is_safe_id (encode r.stem) max_request_id_len))) [
    | inl u ↦ rw u h
    | inr u ↦ elim (Bool-cases r.claim_succeeds) [
      | inl k ↦ rw (u, k) (finish-keeps _ (record b { claimed = suc b.claimed }) t h)
      | inr k ↦ rw (u, k) h
    ]
  ]

  Run-keeps :
      {b c : State} (t : Text)
      → Run instance_token bridge_version responder b c
      → holds b.seen t ≡ true
      → holds c.seen t ≡ true
  Run-keeps t stop h = h
  Run-keeps t (next r run) h = Run-keeps t run (process-keeps r _ t h)

  -- The id of a request that is accepted is recorded.
  process-records :
      (r : Request F) (b : State) (v : ValidatedRequest F)
      → is_safe_id (encode r.stem) max_request_id_len ≡ true
      → r.claim_succeeds ≡ true
      → verdict instance_token bridge_version responder r.body
          (context instance_token bridge_version responder r b)
          r.size
        ≡ accepted v
      → holds (process instance_token bridge_version responder r b).seen v.request_id ≡ true
  unfolding process finish
  process-records r b v safe claim h =
      rw
        (
          safe,
          claim,
          h,
          respond-seen (responder v)
              (record b { claimed = suc b.claimed; seen = b.seen ++ v.request_id ∷ [] }),
          holds-push b.seen v.request_id v.request_id,
          (text_eq_iff v.request_id v.request_id).1 refl,
        )
        (or_true _)
    where
      or_true : (x : Bool) → (x || true) ≡ true
      or_true true = refl
      or_true false = refl

  -- Whatever the bridge of testing.rs, which keeps every id, handles after a request that it claimed
  -- and accepted, it accepts no request with the same id again.
  pub no_replay :
      (r s : Request F) (b c : State) (v w : ValidatedRequest F)
      → is_safe_id (encode r.stem) max_request_id_len ≡ true
      → r.claim_succeeds ≡ true
      → verdict instance_token bridge_version responder r.body
          (context instance_token bridge_version responder r b)
          r.size
        ≡ accepted v
      → Run instance_token bridge_version responder
          (process instance_token bridge_version responder r b)
          c
      → verdict instance_token bridge_version responder s.body
          (context instance_token bridge_version responder s c)
          s.size
        ≡ accepted w
      → w.request_id ≢ v.request_id
  no_replay r s b c v w safe claim h run h' same =
      let kept = Run-keeps v.request_id run (process-records r b v safe claim h) in
      let fresh =
        accepted_fresh s.body (context instance_token bridge_version responder s c) s.size w h' in
      clash (sym kept ∙ sym (ap (holds c.seen) same) ∙ fresh)
    where
      clash : true ≢ false
      clash e = grind (arith, e)
