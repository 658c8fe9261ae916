-- ===== src/Qjson/Json/Scalars.antt =====
-- A number, a string, a Boolean or a null written by crates/qjson/src/json.rs is parsed back.
use reapermcp.Qjson.Floats.Shortest.{
  IsLawful, format_f64-IsNumberText, parse_f64-format_f64, has_mark-format_f64,
}
use reapermcp.Qjson.Json.{Json, float, bool, int, str, arr, obj, null}
use reapermcp.Qjson.Json.Parse.{parse_value}
use reapermcp.Qjson.Json.Numbers.Ints.{
  IsI64, parse_number-scanned, parse_number-show_ℤ, show-IsWhole, number_value-float,
}
use reapermcp.Qjson.Json.Numbers.{scan_number, parse_number, is_empty}
use reapermcp.Qjson.Json.Error.{Seg, ok}
use reapermcp.Qjson.Json.Parse.Steps.{is_number_start, Starts, starts, state, parse_value-number}
use reapermcp.Qjson.Json.Write.{write_compact, write_json_string}
use reapermcp.Qjson.Json.Wellformed.{IsWf}
use reapermcp.Prelude.Int.{ℤ, pos, negsuc}
use reapermcp.Qjson.Json.Numbers.Shape.{
  IsNumber, Ends, no_fraction, no_exponent, scan_number-eq, AllDigits, IsSign, IsWhole,
}
use reapermcp.Qjson.Floats.{Floats, format_f64, has_mark}
use reapermcp.Prelude.Decimal.{Bytes, show_ℤ, show}
use reapermcp.Prelude.{
  ℕ, ◌≡◌, ◌∷◌, List, ◌++◌, true, Bool, inl, ◌∙◌, some, suc, arith, [], inr, subst, refl, false,
  append_assoc, ap, sym, ap₂, append-nil, not, ◌&&◌,
}

-- What a number text begins with.
number_start :
    (sg w fr ex : Bytes)
    → IsNumber sg w fr ex
    → (c : ℕ) × (s : Bytes) × (sg ++ (w ++ (fr ++ ex)) ≡ c ∷ s) × (is_number_start c ≡ true)
number_start sg [] fr ex n = elim n.whole_ok [ ]
number_start sg (c ∷ w) fr ex n = elim n.sign_ok [
  | inl e ↦ (c, w ++ (fr ++ ex), rw e refl, ground (arith, n.whole_ok))
  | inr e ↦ (b'-', c ∷ (w ++ (fr ++ ex)), rw e refl, refl)
]

int_start : (z : ℤ) → (c : ℕ) × (s : Bytes) × (show_ℤ z ≡ c ∷ s) × (is_number_start c ≡ true)
unfolding show_ℤ
int_start (pos n) =
    let (c, s, e, h) = number_start [] (show n) [] [] (record {
      sign_ok = inl refl;
      whole_ok = show-IsWhole n;
      fraction_ok = no_fraction refl;
      exponent_ok = no_exponent refl;
    }) in
    (c, s, sym (append-nil (show n)) ∙ e, h)
int_start (negsuc n) = (b'-', show (suc n), refl, refl)

number_start-Starts :
    (t : Bytes) → (c : ℕ) × (s : Bytes) × (t ≡ c ∷ s) × (is_number_start c ≡ true) → Starts t
number_start-Starts t (c, s, e, h) = starts c s e (ground arith) (ground arith)

has_mark-digits : (ds : Bytes) → AllDigits ds → has_mark ds ≡ false
unfolding has_mark
has_mark-digits [] h = refl
has_mark-digits (c ∷ ds) (hc, h) = ground (arith, has_mark-digits ds h)

unmarked : (sg w : Bytes) → IsSign sg → IsWhole w → has_mark (sg ++ (w ++ [])) ≡ true → ⊥
unfolding has_mark
unmarked sg [] g w = elim w [ ]
unmarked sg (c ∷ w) (inl e) (hc, hw, _) =
    rw e (rw append-nil λ h. ground (arith, has_mark-digits w hw))
unmarked sg (c ∷ w) (inr e) (hc, hw, _) =
    rw e (rw append-nil λ h. ground (arith, has_mark-digits w hw))

-- A number with a point or an exponent has one of these parts.
marked :
    (sg w fr ex : Bytes)
    → IsNumber sg w fr ex
    → has_mark (sg ++ (w ++ (fr ++ ex))) ≡ true
    → is_empty fr && is_empty ex ≡ false
marked sg [] fr ex n h = elim n.whole_ok [ ]
marked sg (c ∷ w) (a ∷ fr) ex n h = refl
marked sg (c ∷ w) [] (b ∷ ex) n h = refl
marked sg (c ∷ w) [] [] n h = absurd (unmarked sg (c ∷ w) n.sign_ok n.whole_ok h)

module _ (fs : Floats) (laws : IsLawful fs) where
  open fs use {Float}

  float_start :
      (v : Float)
      → fs.is_finite v ≡ true
      → (c : ℕ) × (s : Bytes) × (format_f64 fs v ≡ c ∷ s) × (is_number_start c ≡ true)
  float_start v h =
      let n = format_f64-IsNumberText fs v laws h in
      let (c, s, e, k) = number_start n.sign n.whole n.fraction n.exponent n.shape in
      (c, s, n.text ∙ e, k)

  pub write_compact-Starts : (b : Bool) (v : Json Float) → IsWf fs v → Starts (write_compact fs b v)
  unfolding write_compact write_json_string
  write_compact-Starts b null h = starts _ _ refl refl refl
  write_compact-Starts b (bool true) h = starts _ _ refl refl refl
  write_compact-Starts b (bool false) h = starts _ _ refl refl refl
  write_compact-Starts b (int z) h = number_start-Starts (show_ℤ z) (int_start z)
  write_compact-Starts b (float v) h = number_start-Starts (format_f64 fs v) (float_start v h)
  write_compact-Starts b (str s) h = starts _ _ refl refl refl
  write_compact-Starts b (arr items) h = starts _ _ refl refl refl
  write_compact-Starts b (obj map) h = starts _ _ refl refl refl

  scan_number-format_f64 :
      (v : Float) (r : Bytes)
      → fs.is_finite v ≡ true
      → Ends r
      → scan_number (format_f64 fs v ++ r) ≡ some (format_f64 fs v, true, r)
  scan_number-format_f64 v r h e =
      let n = format_f64-IsNumberText fs v laws h in
      let parts = n.whole ++ (n.fraction ++ n.exponent) in
      let assoc =
        append_assoc n.sign parts r
        ∙ ap (λ t. n.sign ++ t)
            (append_assoc n.whole (n.fraction ++ n.exponent) r
              ∙ ap (λ t. n.whole ++ t) (append_assoc n.fraction n.exponent r)) in
      ap (λ t. scan_number (t ++ r)) n.text
      ∙ ap scan_number assoc
      ∙ scan_number-eq n.sign n.whole n.fraction n.exponent r n.shape e
      ∙ ap₂ (λ t b. some (t, not b, r)) (sym n.text)
          (marked n.sign n.whole n.fraction n.exponent n.shape
            (subst (λ t. has_mark t ≡ true) n.text (has_mark-format_f64 fs v laws h)))

  parse_number-format_f64 :
      (path : List Seg) (v : Float) (r : Bytes)
      → fs.is_finite v ≡ true
      → Ends r
      → parse_number fs path (format_f64 fs v ++ r) ≡ ok (float v, r)
  parse_number-format_f64 path v r h e =
      parse_number-scanned fs path (format_f64 fs v ++ r) (format_f64 fs v) r true (float v)
        (scan_number-format_f64 v r h e)
        (number_value-float fs path (format_f64 fs v) v (parse_f64-format_f64 fs v laws h) h)

  module _ (f d : ℕ) (path : List Seg) (r : Bytes) where
    pub parse_value-int :
        (z : ℤ)
        → IsI64 z
        → Ends r
        → parse_value fs (suc f) (state (show_ℤ z ++ r) d path) ≡ ok (int z, state r d path)
    parse_value-int z i e =
        let (c, s, t, h) = int_start z in
        rw t (
          parse_value-number fs f d path c (s ++ r) r (int z) h (
            subst (λ u. parse_number fs path (u ++ r) ≡ ok (int z, r)) t
              (parse_number-show_ℤ fs path z r i e)))

    pub parse_value-float :
        (v : Float)
        → fs.is_finite v ≡ true
        → Ends r
        → parse_value fs (suc f) (state (format_f64 fs v ++ r) d path)
          ≡ ok (float v, state r d path)
    parse_value-float v w e =
        let (c, s, t, h) = float_start v w in
        rw t (
          parse_value-number fs f d path c (s ++ r) r (float v) h (
            subst (λ u. parse_number fs path (u ++ r) ≡ ok (float v, r)) t
              (parse_number-format_f64 path v r w e)))
