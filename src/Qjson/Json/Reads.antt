-- ===== src/Qjson/Json/Reads.antt =====
-- The parser of crates/qjson/src/json.rs reads what the serializer writes, whatever follows.
use reapermcp.Qjson.Floats.Shortest.{IsLawful}
use reapermcp.Qjson.Json.Map.{append_entry}
use reapermcp.Qjson.Json.Parse.Loops.{elements_round, members_round}
use reapermcp.Qjson.Json.Collect.{
  IsFresh-none, join_items, join_items_nil, join_items-items_append, IsFresh, join_map,
  join_map_nil, join_map-append_entry, IsFresh-append_entry,
}
use reapermcp.Qjson.Json.Parse.{parse_value, parse_members, parse_elements, items_append}
use reapermcp.Qjson.Json.Numbers.Shape.{Ends}
use reapermcp.Qjson.Json.Error.{Seg, ok}
use reapermcp.Qjson.Utf8.{Text}
use reapermcp.Qjson.Json.Scalars.{write_compact-Starts, parse_value-int, parse_value-float}
use reapermcp.Qjson.Json.Parse.Steps.{
  Starts, starts, state, parse_value-null, parse_value-true, parse_value-false, parse_value-string,
  parse_value-array, bracket-empty, bracket-Starts, parse_value-object, bracket-loop,
  next_or_close-close, next_or_close-comma,
}
use reapermcp.Qjson.Json.Wellformed.{
  calls, IsWf, height, AllWf, items_calls, items_height, MapWf, map_calls, map_height,
}
use reapermcp.Qjson.Json.Write.{
  write_items, write_compact, write_members, member_texts, write_json_string, key_order,
}
use reapermcp.Prelude.Decimal.{Bytes}
use reapermcp.Qjson.Floats.{Floats}
use reapermcp.Qjson.Json.{
  Json, Items, JsonMap, bool, item, int, float, str, arr, obj, no_items, null, entry, no_entries,
}
use reapermcp.Prelude.{
  ℕ, ◌≡◌, ◌≤◌, false, arith, ◌++◌, ◌∷◌, refl, List, ◌+◌, suc, ◌∙◌, ap, append_assoc, [], sym, zero,
  true,
}

calls_pos : {F : Type 0} (v : Json F) → 1 ≤ calls v
calls_pos null = omega arith
calls_pos (bool b) = omega arith
calls_pos (int z) = omega arith
calls_pos (float v) = omega arith
calls_pos (str s) = omega arith
calls_pos (arr l) = omega arith
calls_pos (obj m) = omega arith

module _ (fs : Floats) (laws : IsLawful fs) where
  open fs use {Float}

  abbrev text : Json Float → Bytes
  text v = write_compact fs false v

  abbrev texts : Items Float → Bytes
  texts l = write_items fs false l

  abbrev member_text : JsonMap Float → Bytes
  member_text m = write_members (member_texts fs false m)

  write_items-Starts : (v : Json Float) (l : Items Float) → IsWf fs v → Starts (texts (item v l))
  unfolding write_items
  write_items-Starts v no_items h = write_compact-Starts fs laws false v h
  write_items-Starts v (item w l) h = elim (write_compact-Starts fs laws false v h) [
    | starts c s e a b ↦ starts c (s ++ b',' ∷ texts (item w l)) (rw e refl) a b
  ]

  member_text_quote :
      (k : Text) (v : Json Float) (m : JsonMap Float)
      → (s : Bytes) × (member_text (entry k v m) ≡ b'"' ∷ s)
  unfolding write_members member_texts write_json_string
  member_text_quote k v no_entries = (_, refl)
  member_text_quote k v (entry j w m) = (_, refl)

  mutual
    unfolding write_compact write_members key_order

    pub reads :
        (v : Json Float) (f d : ℕ) (path : List Seg) (r : Bytes)
        → IsWf fs v
        → Ends r
        → calls v ≤ f
        → d + height v ≤ 128
        → parse_value fs f (state (text v ++ r) d path) ≡ ok (v, state r d path)
    reads v zero d path r h e c k = absurd (omega (arith, calls_pos v))
    reads null (suc f) d path r h e c k = parse_value-null fs f d path r
    reads (bool true) (suc f) d path r h e c k = parse_value-true fs f d path r
    reads (bool false) (suc f) d path r h e c k = parse_value-false fs f d path r
    reads (int z) (suc f) d path r h e c k = parse_value-int fs laws f d path r z h e
    reads (float v) (suc f) d path r h e c k = parse_value-float fs laws f d path r v h e
    reads (str s) (suc f) d path r h e c k = parse_value-string fs f d path s r h
    reads (arr no_items) (suc f) d path r h e c k =
        parse_value-array fs f d path (b']' ∷ r)
        ∙ bracket-empty b']' _ _ r d path _ (omega arith) refl
    reads (arr (item v l)) (suc f) d path r (hv, hl) e c k =
        ap (λ t. parse_value fs (suc f) (state (b'[' ∷ t) d path))
          (append_assoc (texts (item v l)) (b']' ∷ []) r)
        ∙ parse_value-array fs f d path _
        ∙ bracket-Starts _ _ (texts (item v l)) (b']' ∷ r) _ d path (write_items-Starts v l hv)
            (omega arith)
        ∙ elements (item v l) f d path no_items r (hv, hl) (omega arith) (omega arith) (omega arith)
    reads (obj no_entries) (suc f) d path r h e c k =
        parse_value-object fs f d path (b'}' ∷ r)
        ∙ bracket-empty b'}' _ _ r d path _ (omega arith) refl
    reads (obj (entry j v m)) (suc f) d path r h e c k =
        let (s, q) = member_text_quote j v m in
        ap (λ t. parse_value fs (suc f) (state (b'{' ∷ t) d path))
          (append_assoc (member_text (entry j v m)) (b'}' ∷ []) r)
        ∙ parse_value-object fs f d path _
        ∙ rw q (
            bracket-loop b'}' (obj no_entries) (parse_members fs f no_entries) b'"' (s ++ b'}' ∷ r)
              d path _ (omega arith) refl refl)
        ∙ ap (λ t. parse_members fs f no_entries (state (t ++ b'}' ∷ r) (d + 1) path)) (sym q)
        ∙ members (entry j v m) f d path no_entries r h (IsFresh-none (entry j v m)) (omega arith)
            (omega arith) (omega arith)

    elements :
        (l : Items Float) (f d : ℕ) (path : List Seg) (acc : Items Float) (r : Bytes)
        → AllWf fs l
        → 1 ≤ items_calls l
        → items_calls l ≤ f
        → d + 1 + items_height l ≤ 128
        → parse_elements fs f acc (state (texts l ++ b']' ∷ r) (d + 1) path)
          ≡ ok (arr (join_items acc l), state r d path)
    elements no_items f d path acc r h p c k = absurd (omega arith)
    elements (item v l) zero d path acc r h p c k = absurd (omega arith)
    elements (item v no_items) (suc f) d path acc r (hv, _) p c k =
        elements_round fs f (d + 1) path acc v (text v) (b']' ∷ r)
          (write_compact-Starts fs laws false v hv)
          (λ q. reads v f (d + 1) q (b']' ∷ r) hv refl (omega arith) (omega arith))
        ∙ next_or_close-close b']' _ _ r d path refl refl
        ∙ ap (λ l. ok (arr l, state r d path))
            (sym (join_items_nil (items_append acc v)) ∙ join_items-items_append acc v no_items)
    elements (item v (item w l)) (suc f) d path acc r (hv, hl) p c k =
        let tail = texts (item w l) ++ b']' ∷ r in
        ap (λ t. parse_elements fs (suc f) acc (state t (d + 1) path))
          (append_assoc (text v) (b',' ∷ texts (item w l)) (b']' ∷ r))
        ∙ elements_round fs f (d + 1) path acc v (text v) (b',' ∷ tail)
            (write_compact-Starts fs laws false v hv)
            (λ q. reads v f (d + 1) q (b',' ∷ tail) hv refl (omega arith) (omega arith))
        ∙ next_or_close-comma b']' _ _ tail (d + 1) path
        ∙ elements (item w l) f d path (items_append acc v) r hl (omega arith) (omega arith)
            (omega arith)
        ∙ ap (λ l. ok (arr l, state r d path)) (join_items-items_append acc v (item w l))

    members :
        (m : JsonMap Float) (f d : ℕ) (path : List Seg) (acc : JsonMap Float) (r : Bytes)
        → MapWf fs m
        → IsFresh acc m
        → 1 ≤ map_calls m
        → map_calls m ≤ f
        → d + 1 + map_height m ≤ 128
        → parse_members fs f acc (state (member_text m ++ b'}' ∷ r) (d + 1) path)
          ≡ ok (obj (join_map acc m), state r d path)
    members no_entries f d path acc r h u p c k = absurd (omega arith)
    members (entry j v m) zero d path acc r h u p c k = absurd (omega arith)
    members (entry j v no_entries) (suc f) d path acc r (hj, hv, _, _) (lj, _) p c k =
        ap (λ t. parse_members fs (suc f) acc (state t (d + 1) path))
          (append_assoc (write_json_string j) (b':' ∷ text v) (b'}' ∷ r))
        ∙ members_round fs f (d + 1) path acc j v (text v) (b'}' ∷ r) hj lj
            (write_compact-Starts fs laws false v hv)
            (λ q. reads v f (d + 1) q (b'}' ∷ r) hv refl (omega arith) (omega arith))
        ∙ next_or_close-close b'}' _ _ r d path refl refl
        ∙ ap (λ m. ok (obj m, state r d path))
            (sym (join_map_nil (append_entry acc j v)) ∙ join_map-append_entry acc j v no_entries)
    members (entry j v (entry i w m)) (suc f) d path acc r (hj, hv, lm, hm) (lj, um) p c k =
        let tail = member_text (entry i w m) ++ b'}' ∷ r in
        ap (λ t. parse_members fs (suc f) acc (state t (d + 1) path))
          (append_assoc (write_json_string j) _ (b'}' ∷ r)
            ∙ ap (λ t. write_json_string j ++ b':' ∷ t)
                (append_assoc (text v) (b',' ∷ member_text (entry i w m)) (b'}' ∷ r)))
        ∙ members_round fs f (d + 1) path acc j v (text v) (b',' ∷ tail) hj lj
            (write_compact-Starts fs laws false v hv)
            (λ q. reads v f (d + 1) q (b',' ∷ tail) hv refl (omega arith) (omega arith))
        ∙ next_or_close-comma b'}' _ _ tail (d + 1) path
        ∙ members (entry i w m) f d path (append_entry acc j v) r hm
            (IsFresh-append_entry j v acc (entry i w m) lm um) (omega arith) (omega arith)
            (omega arith)
        ∙ ap (λ m. ok (obj m, state r d path)) (join_map-append_entry acc j v (entry i w m))
