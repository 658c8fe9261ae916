-- ===== src/Qjson/Floats/Samples.antt =====
-- Sample floats for the tests: two numbers, 1.5 and -0.25, with the texts that Rust gives them.
use reapermcp.Qjson.Json.Numbers.Shape.{digits, no_exponent, power, signed_power}
use reapermcp.Qjson.Json.{text_eq}
use reapermcp.Qjson.Floats.Shortest.{IsLawful, IsNumberText}
use reapermcp.Qjson.Floats.{Floats, has_mark}
use reapermcp.Prelude.Decimal.{Bytes}
use reapermcp.Prelude.{
  ℕ, ◌≡◌, Bool, Option, codes, true, some, if◌then◌else◌, [], ◌↔◌, false, inl, arith, refl, ◌||◌,
  none, inr,
}

abbrev parse_sample : Bytes → Option Bool
parse_sample t =
    if text_eq t (codes "1.5") || text_eq t (codes "1.5e0")
    then some true
    else if text_eq t (codes "-0.25") || text_eq t (codes "-2.5e-1")
    then some false
    else none

abbrev same : Bool → Bool → Bool
same true true = true
same false false = true
same _ _ = false

abbrev display_sample : Bool → Bytes
display_sample true = codes "1.5"
display_sample false = codes "-0.25"

abbrev exponential_sample : ℕ → Bool → Bytes
exponential_sample p true = codes "1.5e0"
exponential_sample p false = codes "-2.5e-1"

abbrev pub sample_floats : Floats
sample_floats = record {
  Float = Bool;
  is_finite = λ v. true;
  same_bits = same;
  parse_f64 = parse_sample;
  display = display_sample;
  debug = display_sample;
  exponential = exponential_sample;
}

display_number : (v : Bool) → IsNumberText (display_sample v)
display_number true = record {
  sign = [];
  whole = codes "1";
  fraction = codes ".5";
  exponent = [];
  shape = record {
    sign_ok = inl refl;
    whole_ok = (refl, tt, λ h. absurd (ground (arith, h)));
    fraction_ok = digits (codes "5") refl (refl, tt);
    exponent_ok = no_exponent refl;
  };
  text = refl;
}
display_number false = record {
  sign = codes "-";
  whole = codes "0";
  fraction = codes ".25";
  exponent = [];
  shape = record {
    sign_ok = inr refl;
    whole_ok = (refl, tt, λ h. refl);
    fraction_ok = digits (codes "25") refl (refl, (refl, tt));
    exponent_ok = no_exponent refl;
  };
  text = refl;
}

exponential_number : (p : ℕ) (v : Bool) → IsNumberText (exponential_sample p v)
exponential_number p true = record {
  sign = [];
  whole = codes "1";
  fraction = codes ".5";
  exponent = codes "e0";
  shape = record {
    sign_ok = inl refl;
    whole_ok = (refl, tt, λ h. absurd (ground (arith, h)));
    fraction_ok = digits (codes "5") refl (refl, tt);
    exponent_ok = power b'e' (codes "0") refl refl (refl, tt);
  };
  text = refl;
}
exponential_number p false = record {
  sign = codes "-";
  whole = codes "2";
  fraction = codes ".5";
  exponent = codes "e-1";
  shape = record {
    sign_ok = inr refl;
    whole_ok = (refl, tt, λ h. absurd (ground (arith, h)));
    fraction_ok = digits (codes "5") refl (refl, tt);
    exponent_ok = signed_power b'e' b'-' (codes "1") refl refl refl (refl, tt);
  };
  text = refl;
}

same_iff : (a b : Bool) → (same a b ≡ true) ↔ (a ≡ b)
same_iff true true = ground arith
same_iff true false = ground arith
same_iff false true = ground arith
same_iff false false = ground arith

debug_mark : (v : Bool) → has_mark (display_sample v) ≡ true
unfolding has_mark
debug_mark true = refl
debug_mark false = refl

debug_reads : (v : Bool) → parse_sample (display_sample v) ≡ some v
debug_reads true = refl
debug_reads false = refl

pub sample_laws : IsLawful sample_floats
sample_laws = record {
  same_bits_iff = same_iff;
  display_number = λ v _. display_number v;
  debug_number = λ v _. display_number v;
  exponential_number = λ v p _. exponential_number p v;
  debug_mark = λ v _. debug_mark v;
  debug_reads = λ v _. debug_reads v;
}
