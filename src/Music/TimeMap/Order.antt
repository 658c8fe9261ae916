-- ===== src/Music/TimeMap/Order.antt =====
-- The order of positions that the sort of crates/music-domain/src/time.rs goes by.
use reapermcp.Prelude.{
  ℕ, Ordering, compare, ◌≡◌, ◌↔◌, ◌⊎◌, arith, inl, inr, false, true, ◌<◌, subst, sym,
}
use reapermcp.Music.TimeMap.{gt_time, same_time}
use reapermcp.Music.BeatTime.Compare.{cmp-eq_iff, cmp-lt_trans}
use reapermcp.Music.BeatTime.Canonical.{IsCanonical}
use reapermcp.Music.BeatTime.{BeatTime, cmp}

infix 50 ◌≼◌ ◌≺◌
-- A position at or before another, and one before it.
abbrev pub ◌≼◌ : BeatTime → BeatTime → Type 0
x ≼ y = gt_time x y ≡ false

abbrev pub ◌≺◌ : BeatTime → BeatTime → Type 0
x ≺ y = gt_time y x ≡ true

above : (a b : ℕ) → (elim (compare a b) [ Ordering.gt ↦ true | _ ↦ false ] ≡ true) ↔ (b < a)
above a b = ground arith

pub lt_iff : (x y : BeatTime) → (x ≺ y) ↔ (cmp x y ≡ Ordering.lt)
unfolding gt_time cmp
lt_iff x y = ground arith

le-cases : (x y : BeatTime) → x ≼ y → (x ≺ y) ⊎ (cmp x y ≡ Ordering.eq)
unfolding gt_time cmp
le-cases x y h = ground (arith, h)

pub lt-le : (x y : BeatTime) → x ≺ y → x ≼ y
unfolding gt_time cmp
lt-le x y h = ground (arith, h)

pub le_self : (x : BeatTime) → x ≼ x
unfolding gt_time cmp
le_self x = ground arith

same_parts : (x : BeatTime) → same_time x x ≡ true
unfolding same_time
same_parts x = ground arith

pub lt_or_same : (x y : BeatTime) → IsCanonical x → IsCanonical y → x ≼ y → (x ≺ y) ⊎ (x ≡ y)
lt_or_same x y hx hy h = elim (le-cases x y h) [
  | inl less ↦ inl less
  | inr same ↦ inr ((cmp-eq_iff x y hx hy).0 same)
]

module _ (x y : BeatTime) (hx : IsCanonical x) (hy : IsCanonical y) where
  -- What is at or before and not the same is before.
  pub apart : x ≼ y → same_time x y ≡ false → x ≺ y
  apart h e = elim (lt_or_same x y hx hy h) [
    | inl less ↦ less
    | inr same ↦ absurd (grind (arith, e, same_parts x, same))
  ]

  module _ (z : BeatTime) (hz : IsCanonical z) where
    pub lt_trans : x ≺ y → y ≺ z → x ≺ z
    lt_trans h k =
        (lt_iff x z).1 (cmp-lt_trans x y z hx hy hz ((lt_iff x y).0 h) ((lt_iff y z).0 k))

    pub lt-le_trans : x ≺ y → y ≼ z → x ≺ z
    lt-le_trans h k = elim (lt_or_same y z hy hz k) [
      | inl less ↦ lt_trans h less
      | inr same ↦ subst (λ w. x ≺ w) same h
    ]

    pub le_trans : x ≼ y → y ≼ z → x ≼ z
    le_trans h k = elim (lt_or_same x y hx hy h) [
      | inl less ↦ lt-le x z (lt-le_trans less k)
      | inr same ↦ subst (λ w. w ≼ z) (sym same) k
    ]
