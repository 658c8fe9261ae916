-- ===== src/Music/Letter.antt =====
-- `Letter` of crates/music-domain/src/pitch.rs.
pub mod Every
use reapermcp.Prelude.Euclid.{split_7}
use reapermcp.Prelude.Int.{ℤ, pos, ◌+ℤ◌, pos_part, div_euclid, ◌*ℤ◌, rem_euclid, +ℤ_comm}
use reapermcp.Prelude.{ℕ, ◌≡◌, List, ◌<◌, ◌∷◌, get_or, arith, [], suc, ap, refl, zero, ◌∙◌, sym}

pub data Letter : Type 0 where
  c d e f g a b : Letter

abbrev pub all : List Letter
all = c ∷ d ∷ e ∷ f ∷ g ∷ a ∷ b ∷ []

unfoldable pub natural_pc : Letter → ℤ
natural_pc c = pos 0
natural_pc d = pos 2
natural_pc e = pos 4
natural_pc f = pos 5
natural_pc g = pos 7
natural_pc a = pos 9
natural_pc b = pos 11

unfoldable pub diatonic_index : Letter → ℤ
diatonic_index c = pos 0
diatonic_index d = pos 1
diatonic_index e = pos 2
diatonic_index f = pos 3
diatonic_index g = pos 4
diatonic_index a = pos 5
diatonic_index b = pos 6

-- `Letter::ALL[i.rem_euclid(7) as usize]`, an index within the table.
unfoldable pub from_diatonic_index : ℤ → Letter
from_diatonic_index i = get_or all (pos_part (rem_euclid i (pos 7))) c

-- The new letter, and how many octaves were crossed.
unfoldable pub step : Letter → ℤ → Letter × ℤ
unfolding from_diatonic_index
step l steps =
    let raw = diatonic_index l +ℤ steps in (from_diatonic_index raw, div_euclid raw (pos 7))

diatonic_index-all : (n : ℕ) → n < 7 → diatonic_index (get_or all n c) ≡ pos n
unfolding diatonic_index
diatonic_index-all zero h = refl
diatonic_index-all (suc zero) h = refl
diatonic_index-all (suc (suc zero)) h = refl
diatonic_index-all (suc (suc (suc zero))) h = refl
diatonic_index-all (suc (suc (suc (suc zero)))) h = refl
diatonic_index-all (suc (suc (suc (suc (suc zero))))) h = refl
diatonic_index-all (suc (suc (suc (suc (suc (suc zero)))))) h = refl
diatonic_index-all (suc (suc (suc (suc (suc (suc (suc n))))))) h = absurd (omega arith)

pub diatonic_index_range : (l : Letter) → (n : ℕ) × (diatonic_index l ≡ pos n) × (n < 7)
unfolding diatonic_index
diatonic_index_range c = (0, refl, omega arith)
diatonic_index_range d = (1, refl, omega arith)
diatonic_index_range e = (2, refl, omega arith)
diatonic_index_range f = (3, refl, omega arith)
diatonic_index_range g = (4, refl, omega arith)
diatonic_index_range a = (5, refl, omega arith)
diatonic_index_range b = (6, refl, omega arith)

-- The index of a letter is its place in the table.
pub all-diatonic_index : (l : Letter) (n : ℕ) → diatonic_index l ≡ pos n → get_or all n c ≡ l
unfolding diatonic_index
all-diatonic_index c n h = rw (← ap pos_part h) refl
all-diatonic_index d n h = rw (← ap pos_part h) refl
all-diatonic_index e n h = rw (← ap pos_part h) refl
all-diatonic_index f n h = rw (← ap pos_part h) refl
all-diatonic_index g n h = rw (← ap pos_part h) refl
all-diatonic_index a n h = rw (← ap pos_part h) refl
all-diatonic_index b n h = rw (← ap pos_part h) refl

-- Steps count letters, and seven of them are an octave.
pub diatonic_index-step :
    (l : Letter) (steps : ℤ)
    → diatonic_index (step l steps).0 +ℤ (step l steps).1 *ℤ pos 7 ≡ diatonic_index l +ℤ steps
unfolding step from_diatonic_index
diatonic_index-step l steps =
    let (whole, nonneg, lt) = split_7 (diatonic_index l +ℤ steps) in
    rw (diatonic_index-all _ lt) (rw (← nonneg) (+ℤ_comm _ _ ∙ sym whole))

pub diatonic_index_inj : (l m : Letter) → diatonic_index l ≡ diatonic_index m → l ≡ m
diatonic_index_inj l m h =
    let (n, i, lt) = diatonic_index_range m in
    sym (all-diatonic_index l n (h ∙ i)) ∙ all-diatonic_index m n i
