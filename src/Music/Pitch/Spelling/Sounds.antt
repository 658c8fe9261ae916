-- ===== src/Music/Pitch/Spelling/Sounds.antt =====
-- `from_midi` of crates/music-domain/src/pitch.rs gives a pitch that sounds as asked.
use reapermcp.Prelude.Below.{below, below_lem}
use reapermcp.Prelude.Euclid.{split_12, split_12_unique}
use reapermcp.Music.Pitch.Spelling.{
  scale_entry, from_midi, SpellingContext, at_octave_for, in_table, neutral_spelling,
  sharp_spelling, flat_spelling, spelled, natural,
}
use reapermcp.Prelude.Int.{
  ℤ, rem_euclid, eqb_ℤ, pos, ◌+ℤ◌, ◌*ℤ◌, ◌-ℤ◌, int_laws, *ℤ_parts, pos_part, neg_part, div_euclid,
  eqb_ℤ-eq, negsuc, ◌≤ℤ◌,
}
use reapermcp.Music.Pitch.{midi}
use reapermcp.Prelude.{
  List, Option, ◌∷◌, ◌≡◌, some, true, arith, [], none, inl, inr, ap, subst, ℕ, sym, Bool, get_or,
  if◌then◌else◌, ◌∙◌, if-some, refl, false,
}
use reapermcp.Music.Letter.{Letter, natural_pc, c}

-- The pitch class of a spelling.
unfoldable pub spelling_pc : Letter × ℤ → ℤ
spelling_pc (l, acc) = rem_euclid (natural_pc l +ℤ acc) (pos 12)

-- The spellings of a context sound as the pitch classes they stand beside.
unfoldable pub IsConsistent : List ℤ → List (Letter × ℤ) → Type 0
IsConsistent [] ss = Unit
IsConsistent (p ∷ ps) [] = Unit
IsConsistent (p ∷ ps) (s ∷ ss) = (spelling_pc s ≡ rem_euclid p (pos 12)) × IsConsistent ps ss

abbrev pub ContextIsConsistent : Option SpellingContext → Type 0
ContextIsConsistent none = Unit
ContextIsConsistent (some ctx) = IsConsistent ctx.scale_pcs ctx.scale_spelling

at_octave_for_lem :
    (s : Letter × ℤ) (m : ℤ) → spelling_pc s ≡ rem_euclid m (pos 12) → midi (at_octave_for s m) ≡ m
unfolding midi at_octave_for spelling_pc
at_octave_for_lem (l, acc) m h =
    let x = natural_pc l +ℤ acc in
    let (wx, _, _) = split_12 x in
    let (wm, _, _) = split_12 m in
    let dv =
      (split_12_unique (div_euclid m (pos 12) -ℤ div_euclid x (pos 12)) (m -ℤ x) 0
        (shape m x (div_euclid m (pos 12)) (div_euclid x (pos 12)) _ wm (rw (← h) wx))
        (omega arith)).0 in
    rw dv (
      place m (natural_pc l) acc (div_euclid m (pos 12)) (div_euclid x (pos 12)) _ wm (rw (← h) wx))
  where
    shape :
        (m x q k r : ℤ)
        → m ≡ q *ℤ pos 12 +ℤ r
        → x ≡ k *ℤ pos 12 +ℤ r
        → m -ℤ x ≡ (q -ℤ k) *ℤ pos 12 +ℤ pos 0
    shape m x q k r h h' = rw (h, h') (omega (int_laws, *ℤ_parts))

    place :
        (m n acc q k r : ℤ)
        → m ≡ q *ℤ pos 12 +ℤ r
        → n +ℤ acc ≡ k *ℤ pos 12 +ℤ r
        → (q -ℤ k -ℤ pos 1 +ℤ pos 1) *ℤ pos 12 +ℤ n +ℤ acc ≡ m
    place m n acc q k r h h' =
        omega (int_laws, *ℤ_parts, ap pos_part h, ap neg_part h, ap pos_part h', ap neg_part h')

scale_entry_pc :
    (ps : List ℤ) (ss : List (Letter × ℤ)) (pc : ℤ) (s : Letter × ℤ)
    → IsConsistent ps ss
    → scale_entry ps ss pc ≡ some s
    → spelling_pc s ≡ pc
unfolding IsConsistent scale_entry
scale_entry_pc [] ss pc s h e = grind (arith, e)
scale_entry_pc (p ∷ ps) [] pc s h e = grind (arith, e)
scale_entry_pc (p ∷ ps) (t ∷ ss) pc s h e = elim (if-some (eqb_ℤ (rem_euclid p (pos 12)) pc) e) [
  | inl (y, same) ↦ subst (λ z. spelling_pc z ≡ pc) same (h.0 ∙ eqb_ℤ-eq _ _ y)
  | inr later ↦ scale_entry_pc ps ss pc s h.1 later
]

-- A table sounds as its indices, if the test of its entries succeeds.
unfoldable sounds_at : List (Letter × ℤ) → ℕ → Bool
sounds_at table n = eqb_ℤ (spelling_pc (get_or table n (c, natural))) (pos n)

in_table_pc :
    (table : List (Letter × ℤ)) (m : ℤ)
    → below 12 (sounds_at table) ≡ true
    → spelling_pc (in_table table (rem_euclid m (pos 12))) ≡ rem_euclid m (pos 12)
unfolding sounds_at in_table
in_table_pc table m h =
    let (_, nonneg, lt) = split_12 m in
    eqb_ℤ-eq _ _ (below_lem 12 (sounds_at table) h _ lt) ∙ sym nonneg

neutral-sounds : below 12 (sounds_at neutral_spelling) ≡ true
unfolding below sounds_at spelling_pc natural_pc rem_euclid
neutral-sounds = refl

preferred-sounds :
    (flats : Bool) → below 12 (sounds_at (if flats then flat_spelling else sharp_spelling)) ≡ true
unfolding below sounds_at spelling_pc natural_pc rem_euclid
preferred-sounds true = refl
preferred-sounds false = refl

spelled_pc :
    (o : Option (Letter × ℤ)) (flats : Bool) (m : ℤ)
    → ((s : Letter × ℤ) → o ≡ some s → spelling_pc s ≡ rem_euclid m (pos 12))
    → spelling_pc (spelled o flats (rem_euclid m (pos 12))) ≡ rem_euclid m (pos 12)
unfolding spelled
spelled_pc (some s) flats m h = h s refl
spelled_pc none flats m h = in_table_pc _ m (preferred-sounds flats)

-- The pitch that `from_midi` spells sounds the MIDI pitch it was given, if there is no context or
-- the spellings of the context sound as the pitch classes beside them, for MIDI pitches between
-- minus and plus 2 000 000 000.
pub midi-from_midi :
    (m : ℤ) (ctx : Option SpellingContext)
    → negsuc 1999999999 ≤ℤ m
    → m ≤ℤ pos 2000000000
    → ContextIsConsistent ctx
    → midi (from_midi m ctx) ≡ m
unfolding from_midi
midi-from_midi m none lo hi h = at_octave_for_lem _ m (in_table_pc _ m neutral-sounds)
midi-from_midi m (some ctx) lo hi h =
    at_octave_for_lem _ m (spelled_pc _ ctx.prefer_flats m (λ s e. scale_entry_pc _ _ _ s h e))
