-- ===== src/Ipc/Result/Steps.antt =====
-- How the chains of attempts in crates/reaper-ipc are taken apart.
use reapermcp.Qjson.Utf8.{Text}
use reapermcp.Ipc.Result.{◌>>=◌, ◌>>◌, Attempt, parsed, broken, check, or_break}
use reapermcp.Prelude.{Option, Bool, ◌≡◌, none, some, true, false, refl, arith}

pub behind :
    {A B : Type 0} (v : Attempt A) {f : A → Attempt B} {b : B}
    → (v >>= f) ≡ parsed b
    → (a : A) × (v ≡ parsed a) × (f a ≡ parsed b)
behind (parsed a) h = (a, refl, h)
behind (broken c) h = absurd (grind (arith, h))

pub passed :
    {B : Type 0} (t : Bool) (c : Text) {v : Attempt B} {b : B}
    → (check t c >> v) ≡ parsed b
    → (t ≡ true) × (v ≡ parsed b)
unfolding check
passed true c h = (refl, h)
passed false c h = absurd (grind (arith, h))

pub or_break-some :
    {A : Type 0} (o : Option A) (c : Text) {a : A} → or_break o c ≡ parsed a → o ≡ some a
unfolding or_break
or_break-some none c h = absurd (grind (arith, h))
or_break-some (some b) c h = grind (arith, h)
