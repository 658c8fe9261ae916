-- ===== src/Qjson/Json/Numbers/Ints.antt =====
-- Integers written by crates/qjson/src/json.rs are read back as integers.
use reapermcp.Qjson.Json.{int, Json, float}
use reapermcp.Qjson.Json.Error.{Seg, ok}
use reapermcp.Prelude.{
  List, ℕ, ◌<◌, ◌≡◌, arith, suc, ◌≤◌, some, ◌^◌, ◌/◌, [], ◌∷◌, ◌+◌, ◌++◌, zero, ◌%◌, refl, false,
  inl, inr, ◌∙◌, ap, append-nil, Bool, true,
}
use reapermcp.Prelude.Int.{ℤ, neg_part, pos_part, pos, negsuc, neg}
use reapermcp.Qjson.Json.Numbers.{
  digits_value, parse_i64, parse_number, scan_number, number_value, scanned, number_or_error,
  finite_value, finite_float,
}
use reapermcp.Qjson.Json.Numbers.Shape.{
  IsWhole, AllDigits, Ends, IsSign, scan_number-eq, no_fraction, no_exponent,
}
use reapermcp.Prelude.Decimal.{Bytes, emit, show, show_ℤ}
use reapermcp.Qjson.Floats.{Floats}

digits_value-emit :
    (f n : ℕ) (out : Bytes) → n < f → digits_value 0 (emit f n out) ≡ digits_value n out
unfolding emit digits_value
digits_value-emit zero n out h = absurd (omega arith)
digits_value-emit (suc f) n out h =
    ground (arith, digits_value-emit f (n / 10) ((b'0' + n % 10) ∷ out))

AllDigits-emit : (f n : ℕ) (out : Bytes) → n < f → AllDigits out → AllDigits (emit f n out)
unfolding emit
AllDigits-emit zero n out h a = absurd (omega arith)
AllDigits-emit (suc f) n out h a = ground (arith, AllDigits-emit f (n / 10) ((b'0' + n % 10) ∷ out))

-- The first digit of a number is not zero.
IsWhole-emit : (f n : ℕ) (out : Bytes) → n < f → 0 < n → AllDigits out → IsWhole (emit f n out)
unfolding emit
IsWhole-emit zero n out h p a = absurd (omega arith)
IsWhole-emit (suc f) n out h p a = ground (arith, IsWhole-emit f (n / 10) ((b'0' + n % 10) ∷ out))

pub show-IsWhole : (n : ℕ) → IsWhole (show n)
unfolding show
show-IsWhole zero = (refl, tt, λ _. refl)
show-IsWhole (suc n) = IsWhole-emit (suc (suc n)) (suc n) [] (omega arith) (omega arith) tt

digits_value-show : (n : ℕ) → digits_value 0 (show n) ≡ n
unfolding show digits_value
digits_value-show n = digits_value-emit (suc n) n [] (omega arith)

-- The range of i64.
pub record IsI64 (z : ℤ) : Type 0 where
  pub lower : neg_part z ≤ 2 ^ 63
  pub upper : pos_part z < 2 ^ 63

parse_i64-digits :
    (s : Bytes)
    → IsWhole s
    → digits_value 0 s < 2 ^ 63
    → parse_i64 s ≡ some (pos (digits_value 0 s))
unfolding parse_i64
parse_i64-digits [] w h = elim w [ ]
parse_i64-digits (c ∷ s) (hc, _, _) h = ground arith

pub parse_i64-show_ℤ : (z : ℤ) → IsI64 z → parse_i64 (show_ℤ z) ≡ some z
unfolding show_ℤ
parse_i64-show_ℤ (pos n) r =
    rw (parse_i64-digits (show n) (show-IsWhole n) (rw (digits_value-show n) r.upper))
      (rw (digits_value-show n))
parse_i64-show_ℤ (negsuc n) r =
    unfold parse_i64 neg in rw (digits_value-show (suc n)) (ground (arith, r.lower))

-- A sign and digits are scanned as they stand, without a mark.
scan_number-whole :
    (sg w r : Bytes)
    → IsSign sg
    → IsWhole w
    → Ends r
    → scan_number (sg ++ (w ++ r)) ≡ some (sg ++ w, false, r)
scan_number-whole sg w r s n e =
    scan_number-eq sg w [] [] r
      (record {
        sign_ok = s;
        whole_ok = n;
        fraction_ok = no_fraction refl;
        exponent_ok = no_exponent refl;
      })
      e
    ∙ ap (λ t. some (sg ++ t, false, r)) (append-nil w)

scan_number-show_ℤ :
    (z : ℤ) (r : Bytes) → Ends r → scan_number (show_ℤ z ++ r) ≡ some (show_ℤ z, false, r)
unfolding show_ℤ
scan_number-show_ℤ (pos n) r e = scan_number-whole [] (show n) r (inl refl) (show-IsWhole n) e
scan_number-show_ℤ (negsuc n) r e =
    scan_number-whole (b'-' ∷ []) (show (suc n)) r (inr refl) (show-IsWhole (suc n)) e

module _ (fs : Floats) (path : List Seg) where
  pub parse_number-scanned :
      (s text r : Bytes) (mark : Bool) (v : Json fs.Float)
      → scan_number s ≡ some (text, mark, r)
      → number_value fs text mark ≡ some v
      → parse_number fs path s ≡ ok (v, r)
  unfolding parse_number scanned number_or_error
  parse_number-scanned s text r mark v e h = rw e (rw h refl)

  pub number_value-float :
      (text : Bytes) (v : fs.Float)
      → fs.parse_f64 text ≡ some v
      → fs.is_finite v ≡ true
      → number_value fs text true ≡ some (float v)
  unfolding number_value finite_value finite_float
  number_value-float text v e h = rw e (rw h refl)

  number_value-int :
      (text : Bytes) (z : ℤ) → parse_i64 text ≡ some z → number_value fs text false ≡ some (int z)
  unfolding number_value
  number_value-int text z e = rw e refl

  -- An integer of i64 written in decimal is parsed as that integer, up to a byte that cannot go on
  -- with a number.
  pub parse_number-show_ℤ :
      (z : ℤ) (r : Bytes) → IsI64 z → Ends r → parse_number fs path (show_ℤ z ++ r) ≡ ok (int z, r)
  parse_number-show_ℤ z r i e =
      parse_number-scanned (show_ℤ z ++ r) (show_ℤ z) r false (int z) (scan_number-show_ℤ z r e)
        (number_value-int (show_ℤ z) z (parse_i64-show_ℤ z i))
