-- ===== src/Qjson/Json/Strings/Lengths.antt =====
-- What the string and number parsers of crates/qjson/src/json.rs leave is not longer than their
-- input.
use reapermcp.Qjson.Utf8.{from_utf8, Text}
use reapermcp.Qjson.Json.Error.{Result, ok, Seg, err, out_of_fuel}
use reapermcp.Qjson.Json.Strings.Fuel.{Leaves, weaken, Leaves-parse_escape}
use reapermcp.Prelude.Decimal.{Bytes}
use reapermcp.Qjson.Json.Strings.{
  string_loop, parse_escape, parse_string, text_or_error, finish_string,
}
use reapermcp.Prelude.{
  ℕ, [], ◌∷◌, length, suc, Option-cases, inl, arith, ◌++◌, inr, subst, zero, ◌==◌, Option, leb,
  List, ◌≤◌, Bool-cases, some, none,
}

pub Leaves-string_loop : (f : ℕ) (buf run s : Bytes) → Leaves (length s) (string_loop f buf run s)
unfolding string_loop
Leaves-string_loop f buf run [] = tt
Leaves-string_loop zero buf run (b ∷ s) = tt
Leaves-string_loop (suc f) buf run (b ∷ s) = elim (Bool-cases (b == b'"')) [
  | inl q ↦ rw q (omega arith)
  | inr q ↦ elim (Bool-cases (b == b'\\')) [
    | inl t ↦ elim (Option-cases (parse_escape s)) [
      | inl e ↦ rw q (rw t (rw e tt))
      | inr ((decoded, rest), e) ↦ rw q (
          rw t (
            rw e (
              weaken (string_loop f (buf ++ run ++ decoded) [] rest)
                (omega (arith, subst (Leaves (length s)) e (Leaves-parse_escape s)))
                (Leaves-string_loop f (buf ++ run ++ decoded) [] rest))))
    ]
    | inr t ↦ elim (Bool-cases (leb b 0x1f)) [
      | inl c ↦ rw q (rw t (rw c tt))
      | inr c ↦ rw q (
          rw t (
            rw c (
              weaken (string_loop f buf (run ++ b ∷ []) s) (omega arith)
                (Leaves-string_loop f buf (run ++ b ∷ []) s))))
    ]
  ]
]

-- The parser of a string gives an answer, and leaves no more than there was.
abbrev pub Answers : {A : Type 0} → ℕ → Result (A × Bytes) → Type 0
Answers n (ok (a, rest)) = length rest ≤ n
Answers n (err e) = Unit
Answers n out_of_fuel = ⊥

Answers-text_or_error :
    (path : List Seg) (n : ℕ) (rest : Bytes) (o : Option Text)
    → length rest ≤ n
    → Answers n (text_or_error path rest o)
unfolding text_or_error
Answers-text_or_error path n rest none h = tt
Answers-text_or_error path n rest (some text) h = h

Answers-finish_string :
    (path : List Seg) (n : ℕ) (o : Option (Bytes × Bytes))
    → Leaves n o
    → Answers n (finish_string path o)
unfolding finish_string
Answers-finish_string path n none h = tt
Answers-finish_string path n (some (buf, rest)) h =
    Answers-text_or_error path n rest (from_utf8 buf) h

pub Answers-parse_string : (path : List Seg) (s : Bytes) → Answers (length s) (parse_string path s)
unfolding parse_string
Answers-parse_string path s =
    Answers-finish_string path (length s) (string_loop (length s) [] [] s)
      (Leaves-string_loop (length s) [] [] s)
