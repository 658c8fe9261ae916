-- ===== src/Ipc/Protocol/Steps.antt =====
-- How the chains of checks in crates/reaper-ipc are taken apart and put together.
use reapermcp.Ipc.Protocol.{◌>>=◌, ◌>>◌, Verdict, ErrorCode, accepted, refused, require, or_refuse}
use reapermcp.Prelude.{◌≡◌, ◌≢◌, Option, none, some, true, false, Bool, refl, ap, arith}

-- The two steps of a chain that is accepted.
pub behind {ℓ κ} :
    {A : Type ℓ} {B : Type κ} (v : Verdict A) {f : A → Verdict B} {b : B}
    → (v >>= f) ≡ accepted b
    → (a : A) × (v ≡ accepted a) × (f a ≡ accepted b)
behind (accepted a) h = (a, refl, h)
behind (refused e) h = absurd (grind (arith, h))

pub passed {κ} :
    {B : Type κ} (t : Bool) (e : ErrorCode) {v : Verdict B} {b : B}
    → (require t e >> v) ≡ accepted b
    → (t ≡ true) × (v ≡ accepted b)
unfolding require
passed true e h = (refl, h)
passed false e h = absurd (grind (arith, h))

pub or_refuse-some :
    {A : Type 0} (o : Option A) (e : ErrorCode) {a : A} → or_refuse o e ≡ accepted a → o ≡ some a
unfolding or_refuse
or_refuse-some none e h = absurd (grind (arith, h))
or_refuse-some (some b) e h = grind (arith, h)

-- The steps of a chain that go through.
pub require-then :
    {B : Type 0} {t : Bool} (e : ErrorCode) (v : Verdict B) → t ≡ true → (require t e >> v) ≡ v
unfolding require
require-then e v h = ap (λ b. require b e >> v) h

pub or_refuse-then :
    {A : Type 0} {B : Type 0} {o : Option A} {a : A} (e : ErrorCode) (f : A → Verdict B)
    → o ≡ some a
    → (or_refuse o e >>= f) ≡ f a
unfolding or_refuse
or_refuse-then e f h = ap (λ o. or_refuse o e >>= f) h

code {ℓ} : {A : Type ℓ} → ErrorCode → Verdict A → ErrorCode
code d (accepted a) = d
code d (refused c) = c

pub refused_inj {ℓ} :
    {A : Type ℓ} {c d : ErrorCode} → Path (Verdict A) (refused c) (refused d) → c ≡ d
unfolding code
refused_inj {c = c} p = ap (code c) p

pub require-else :
    {B : Type 0} {t : Bool} (e : ErrorCode) (v : Verdict B)
    → t ≡ false
    → (require t e >> v) ≡ refused e
unfolding require
require-else e v h = ap (λ b. require b e >> v) h

-- A refusal comes from a later step unless the code is that of the first.
pub past_require :
    {B : Type 0} (t : Bool) (e : ErrorCode) {v : Verdict B} {c : ErrorCode}
    → e ≢ c
    → (require t e >> v) ≡ refused c
    → v ≡ refused c
unfolding require
past_require true e n h = h
past_require false e n h = absurd (n (refused_inj h))

pub past_or_refuse :
    {A : Type 0} {B : Type 0} (o : Option A) (e : ErrorCode) {f : A → Verdict B} {c : ErrorCode}
    → e ≢ c
    → (or_refuse o e >>= f) ≡ refused c
    → (a : A) × (o ≡ some a) × (f a ≡ refused c)
unfolding or_refuse
past_or_refuse (some a) e n h = (a, refl, h)
past_or_refuse none e n h = absurd (n (refused_inj h))

value {ℓ} : {A : Type ℓ} → A → Verdict A → A
value d (accepted a) = a
value d (refused e) = d

pub accepted_inj {ℓ} : {A : Type ℓ} {a b : A} → accepted a ≡ accepted b → a ≡ b
unfolding value
accepted_inj {a = a} h = ap (value a) h

pub accepted-then :
    {A : Type 0} {B : Type 0} {v : Verdict A} {a : A} (f : A → Verdict B)
    → v ≡ accepted a
    → (v >>= f) ≡ f a
accepted-then f h = ap (λ v. v >>= f) h
