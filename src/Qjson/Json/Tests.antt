-- ===== src/Qjson/Json/Tests.antt =====
-- The theorems on the documents of crates/qjson/src/json.rs at concrete inputs.
use reapermcp.Qjson.Json.Parse.Nested.{parse-depth}
use reapermcp.Qjson.Json.Parse.Total.{parse-answers}
use reapermcp.Qjson.Json.RoundTrip.{parse-to_string}
use reapermcp.Qjson.Json.Error.{ok, out_of_fuel}
use reapermcp.Qjson.Json.Write.{to_string}
use reapermcp.Qjson.Floats.{format_f64}
use reapermcp.Qjson.Floats.Samples.{sample_floats, sample_laws}
use reapermcp.Qjson.Json.Wellformed.{IsWf}
use reapermcp.Prelude.Int.{negsuc}
use reapermcp.Qjson.Floats.Shortest.{IsAmong, candidates, is_good, IsMinimal, format_f64-IsBest}
use reapermcp.Qjson.Json.Numbers.Ints.{IsI64}
use reapermcp.Qjson.Json.Parse.Depth.{depth}
use reapermcp.Qjson.Json.Parse.{parse}
use reapermcp.Qjson.Json.{Json, obj, entry, null, arr, item, no_entries, int, float, no_items, str}
use reapermcp.Qjson.Utf8.{Text, AllScalars}
use reapermcp.Prelude.{◌≡◌, codes, Bool, arith, true, refl, ◌≢◌, ◌≤◌}

abbrev quote_text : Text
quote_text = codes "a\"b"

abbrev document : Json Bool
document = obj (
    entry (codes "x") (arr (item (int (negsuc 41)) (item (float true) no_items)))
      (entry quote_text (str quote_text) (entry (codes "n") null no_entries)))

small_int : IsI64 (negsuc 41)
small_int = record { lower = omega arith; upper = omega arith }

quote_scalars : AllScalars quote_text
quote_scalars = (refl, (refl, (refl, tt)))

document-IsWf : IsWf sample_floats document
document-IsWf = (
  (refl, tt),
  (small_int, (refl, tt)),
  (refl, (refl, tt)),
  (quote_scalars, quote_scalars, (refl, tt), ((refl, tt), tt, tt, tt)),
)

parse-to_string_example : parse sample_floats (to_string sample_floats document) ≡ ok document
parse-to_string_example =
    parse-to_string sample_floats sample_laws document document-IsWf (omega arith)

parse-answers_example : parse sample_floats (codes "{\"x\":[1,[]") ≢ out_of_fuel
parse-answers_example = parse-answers sample_floats (codes "{\"x\":[1,[]")

parse-depth_example : depth document ≤ 128
parse-depth_example =
    parse-depth sample_floats (to_string sample_floats document) document
      (parse-to_string sample_floats sample_laws document document-IsWf (omega arith))

format_f64-IsBest_example :
    IsAmong (format_f64 sample_floats true) (candidates sample_floats true)
    × (is_good sample_floats true (format_f64 sample_floats true) ≡ true)
    × IsMinimal sample_floats true (format_f64 sample_floats true) (candidates sample_floats true)
format_f64-IsBest_example = format_f64-IsBest sample_floats true sample_laws refl
