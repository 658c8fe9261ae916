-- ===== src/Qjson/Json/Parse/Steps.antt =====
-- What the parser of crates/qjson/src/json.rs does at the start of each kind of text.
use reapermcp.Qjson.Json.Strings.RoundTrip.{parse_string-escape}
use reapermcp.Qjson.Utf8.{Text, AllScalars}
use reapermcp.Qjson.Json.Write.{write_json_string, escape}
use reapermcp.Qjson.Json.{Json, str, null, bool, arr, obj, no_items, no_entries}
use reapermcp.Qjson.Json.Numbers.{is_digit, parse_number}
use reapermcp.Qjson.Json.Error.{Seg, Result, ok}
use reapermcp.Qjson.Json.Parse.{
  drop_ws, Parser, drop_last, parse_value, is_ws, bracket, next_or_close, parse_scalar, enter,
  parse_literal, strip, parse_elements, parse_members, parse, skip_ws,
}
use reapermcp.Qjson.Floats.{Floats}
use reapermcp.Prelude.Decimal.{Bytes}
use reapermcp.Prelude.{
  ℕ, ◌≡◌, Bool, List, ◌==◌, ◌∷◌, ◌++◌, ◌||◌, [], false, refl, ap, ◌<◌, ◌+◌, true, arith, suc, codes,
  append_assoc, ◌≤◌, length, ◌*◌, append-nil, subst,
}

abbrev pub state : Bytes → ℕ → List Seg → Parser
state s d path = record { rest = s; depth = d; path = path }

abbrev pub is_number_start : ℕ → Bool
is_number_start c = c == b'-' || is_digit c

pub drop_last-append : (path : List Seg) (g : Seg) → drop_last (path ++ g ∷ []) ≡ path
drop_last-append [] g = refl
drop_last-append (h ∷ []) g = refl
drop_last-append (h ∷ i ∷ path) g = ap (λ l. h ∷ l) (drop_last-append (i ∷ path) g)

module _ (fs : Floats) (f d : ℕ) (path : List Seg) where
  pub parse_value-number :
      (c : ℕ) (s r : Bytes) (v : Json fs.Float)
      → is_number_start c ≡ true
      → parse_number fs path (c ∷ s) ≡ ok (v, r)
      → parse_value fs (suc f) (state (c ∷ s) d path) ≡ ok (v, state r d path)
  unfolding parse_value parse_scalar
  parse_value-number c s r v n e = ground (arith, e)

  pub parse_value-string :
      (s : Text) (r : Bytes)
      → AllScalars s
      → parse_value fs (suc f) (state (write_json_string s ++ r) d path)
        ≡ ok (str s, state r d path)
  unfolding parse_value parse_scalar write_json_string
  parse_value-string s r h =
      rw (append_assoc (escape s) (b'"' ∷ []) r) (rw (parse_string-escape path s r h) refl)

  pub parse_value-null :
      (r : Bytes)
      → parse_value fs (suc f) (state (codes "null" ++ r) d path) ≡ ok (null, state r d path)
  unfolding parse_value parse_scalar parse_literal strip
  parse_value-null r = refl

  pub parse_value-true :
      (r : Bytes)
      → parse_value fs (suc f) (state (codes "true" ++ r) d path) ≡ ok (bool true, state r d path)
  unfolding parse_value parse_scalar parse_literal strip
  parse_value-true r = refl

  pub parse_value-false :
      (r : Bytes)
      → parse_value fs (suc f) (state (codes "false" ++ r) d path) ≡ ok (bool false, state r d path)
  unfolding parse_value parse_scalar parse_literal strip
  parse_value-false r = refl

-- A text that begins a value of its own: no white space and no bracket that closes.
pub data Starts (t : Bytes) : Type 0 where
  starts : (c : ℕ) (s : Bytes) → t ≡ c ∷ s → is_ws c ≡ false → (c == b']') ≡ false → Starts t

pub drop_ws-Starts : (t r : Bytes) → Starts t → drop_ws (t ++ r) ≡ t ++ r
unfolding drop_ws
drop_ws-Starts t r (starts c s e w b) = rw e (rw w refl)

module _ {A : Type 0} (close : ℕ) (empty : A) (loop : Parser → Result (A × Parser)) where
  pub bracket-empty :
      (s : Bytes) (d : ℕ) (path : List Seg) (p : Bytes)
      → d < 128
      → is_ws close ≡ false
      → bracket close empty (close ∷ s) loop (state p d path) ≡ ok (empty, state s d path)
  unfolding bracket enter drop_ws
  bracket-empty s d path p h w = ground arith

  pub bracket-loop :
      (c : ℕ) (s : Bytes) (d : ℕ) (path : List Seg) (p : Bytes)
      → d < 128
      → is_ws c ≡ false
      → (c == close) ≡ false
      → bracket close empty (c ∷ s) loop (state p d path) ≡ loop (state (c ∷ s) (d + 1) path)
  unfolding bracket enter drop_ws
  bracket-loop c s d path p h w n = ground arith

  pub next_or_close-comma :
      (s : Bytes) (d : ℕ) (path : List Seg)
      → next_or_close close empty loop (state (b',' ∷ s) d path) ≡ loop (state s d path)
  unfolding next_or_close drop_ws
  next_or_close-comma s d path = refl

  pub next_or_close-close :
      (s : Bytes) (d : ℕ) (path : List Seg)
      → is_ws close ≡ false
      → (close == b',') ≡ false
      → next_or_close close empty loop (state (close ∷ s) (d + 1) path) ≡ ok (empty, state s d path)
  unfolding next_or_close drop_ws
  next_or_close-close s d path w n = ground arith

module _ (fs : Floats) (f d : ℕ) (path : List Seg) (s : Bytes) where
  pub parse_value-array :
      parse_value fs (suc f) (state (b'[' ∷ s) d path)
      ≡ bracket b']' (arr no_items) s (parse_elements fs f no_items) (state (b'[' ∷ s) d path)
  unfolding parse_value
  parse_value-array = refl

  pub parse_value-object :
      parse_value fs (suc f) (state (b'{' ∷ s) d path)
      ≡ bracket b'}' (obj no_entries) s (parse_members fs f no_entries) (state (b'{' ∷ s) d path)
  unfolding parse_value
  parse_value-object = refl

pub bracket-Starts :
    {A : Type 0} (empty : A) (loop : Parser → Result (A × Parser)) (t r p : Bytes) (d : ℕ)
    (path : List Seg)
    → Starts t
    → d < 128
    → bracket b']' empty (t ++ r) loop (state p d path) ≡ loop (state (t ++ r) (d + 1) path)
bracket-Starts empty loop t r p d path (starts c s e w b) h =
    rw e (bracket-loop b']' empty loop c (s ++ r) d path p h w b)

pub length-Starts : (t : Bytes) → Starts t → 1 ≤ length t
length-Starts t (starts c s e _ _) = rw e (omega arith)

-- A value that takes the whole input is the result.
pub parse-whole :
    (fs : Floats) (t : Bytes) (v : Json fs.Float)
    → Starts t
    → parse_value fs (2 * length t + 2) (state (t ++ []) 0 []) ≡ ok (v, state [] 0 [])
    → parse fs t ≡ ok v
unfolding parse skip_ws drop_ws
parse-whole fs t v s e =
    let skip = subst (λ u. drop_ws u ≡ u) (append-nil t) (drop_ws-Starts t [] s) in
    let value =
      subst (λ u. parse_value fs (2 * length t + 2) (state u 0 []) ≡ ok (v, state [] 0 []))
        (append-nil t) e in
    rw skip (rw value refl)
