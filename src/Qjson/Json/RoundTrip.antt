-- ===== src/Qjson/Json/RoundTrip.antt =====
-- `Json::parse` and `to_string` of crates/qjson/src/json.rs.
use reapermcp.Qjson.Floats.Shortest.{IsLawful}
use reapermcp.Qjson.Json.Reads.{reads}
use reapermcp.Qjson.Json.Parse.Steps.{length-Starts, parse-whole}
use reapermcp.Qjson.Json.Scalars.{write_compact-Starts}
use reapermcp.Qjson.Json.Error.{ok}
use reapermcp.Qjson.Json.Parse.{parse}
use reapermcp.Qjson.Json.Wellformed.{IsWf, height, calls, AllWf, items_calls, MapWf, map_calls}
use reapermcp.Qjson.Json.{
  Json, bool, int, float, str, arr, obj, Items, item, JsonMap, entry, null, no_items, no_entries,
}
use reapermcp.Qjson.Json.Write.{
  write_compact, write_members, write_json_string, key_order, to_string, write_items, member_texts,
}
use reapermcp.Qjson.Floats.{Floats}
use reapermcp.Prelude.{
  ◌≡◌, ◌≤◌, length, false, arith, ◌*◌, ◌+◌, length-append, [], ◌∷◌, suc, ◌++◌, true,
}

module _ (fs : Floats) (laws : IsLawful fs) where
  open fs use {Float}

  -- A text of this length gives the parser enough fuel.
  mutual
    unfolding write_compact write_members write_json_string key_order

    calls-text : (v : Json Float) → IsWf fs v → calls v ≤ length (write_compact fs false v)
    calls-text null h = omega arith
    calls-text (bool true) h = omega arith
    calls-text (bool false) h = omega arith
    calls-text (int z) h = length-Starts _ (write_compact-Starts fs laws false (int z) h)
    calls-text (float v) h = length-Starts _ (write_compact-Starts fs laws false (float v) h)
    calls-text (str s) h = omega arith
    calls-text (arr l) h =
        omega (arith, calls-texts l h, length-append (write_items fs false l) (b']' ∷ []))
    calls-text (obj m) h = omega (
      arith,
      calls-members m h,
      length-append (write_members (member_texts fs false m)) (b'}' ∷ []),
    )

    calls-texts :
        (l : Items Float) → AllWf fs l → items_calls l ≤ suc (length (write_items fs false l))
    calls-texts no_items h = omega arith
    calls-texts (item v no_items) (h, _) = omega (arith, calls-text v h)
    calls-texts (item v (item w l)) (h, k) = omega (
      arith,
      calls-text v h,
      calls-texts (item w l) k,
      length-append (write_compact fs false v) (b',' ∷ write_items fs false (item w l)),
    )

    calls-members :
        (m : JsonMap Float)
        → MapWf fs m
        → map_calls m ≤ suc (length (write_members (member_texts fs false m)))
    calls-members no_entries h = omega arith
    calls-members (entry k v no_entries) (_, h, _, _) = omega (
      arith,
      calls-text v h,
      length-append (write_json_string k) (b':' ∷ write_compact fs false v),
    )
    calls-members (entry k v (entry j w m)) (_, h, _, hm) = omega (
      arith,
      calls-text v h,
      calls-members (entry j w m) hm,
      length-append (write_json_string k) (
          b':'
          ∷ (write_compact fs false v
              ++ b',' ∷ write_members (member_texts fs false (entry j w m)))),
      length-append (write_compact fs false v)
          (b',' ∷ write_members (member_texts fs false (entry j w m))),
    )

  -- For floats with the documented formatting laws: a value whose integers are in i64, whose floats
  -- are finite, whose strings and keys are Unicode scalars, whose maps repeat no key and which is at
  -- most 128 brackets deep is written as a text that parses to it.
  pub parse-to_string :
      (v : Json Float) → IsWf fs v → height v ≤ 128 → parse fs (to_string fs v) ≡ ok v
  unfolding to_string
  parse-to_string v h k =
      parse-whole fs (to_string fs v) v (write_compact-Starts fs laws false v h) (
        reads fs laws v (2 * length (to_string fs v) + 2) 0 [] [] h tt
          (omega (arith, calls-text v h)) (omega arith))
