-- ===== src/Tests/Functions.antt =====
-- The built-in functions at concrete arguments.
use mangle_rs.Prelude.{
  ℕ, ◌^◌, ◌≤◌, ◌<◌, ◌≡◌, refl, none, List, [], ◌∷◌, arith, ◌==◌, nat_eq, list_eq, pair_eq, Str,
  bytes, Error, Outcome, ok_or, ok, panic, ℤ, int_eq,
}
use mangle_rs.Prelude.{pos, negsuc}
use mangle_rs.Prelude.Assoc.{lookup}
use mangle_rs.Common.Value
use mangle_rs.Common.Value.{
  Value, Values, nil, cons, number, string, name, time, duration, compound, of_list,
}
use mangle_rs.Common.Value.Equality.{value_eq}
use mangle_rs.Interpreter.Functions.{eval_function}
use mangle_rs.Interpreter.Functions.Given.{Floats}
use mangle_rs.Interpreter.Functions.Ints.{div_euclid}
use mangle_rs.Interpreter.Functions.Civil.{civil_from_epoch_secs, days_from_civil}
use mangle_rs.Interpreter.Functions.Civil.RoundTrip.{days_from_civil-civil_from_epoch_secs}
use mangle_rs.Interpreter.Functions.Parse.{parse_timezone_offset, parse_rfc3339_to_nanos}
use mangle_rs.Interpreter.Functions.Display.{format_duration_nanos}
use mangle_rs.Interpreter.Functions.Times.{parse_duration_string}
use mangle_rs.Interpreter.Functions.Times.Laws.{
  eval_function-time_bounds, eval_function-parse-format,
}
use mangle_rs.Interpreter.Functions.Compounds.Laws.{
  zip, eval_function-map_get, eval_function-list_append,
}

-- a stand-in for the language's floats
abbrev pub floats : Floats
floats = record {
  as_f64 = λ n. 0;
  f64_zero = 0;
  f64_one = 1;
  f64_add = λ a b. a;
  f64_sub = λ a b. a;
  f64_mul = λ a b. a;
  f64_div = λ a b. a;
  f64_neg = λ a. a;
  f64_sqrt = λ a. a;
  f64_is_zero = λ a. a == 0;
  f64_parse = λ s. none;
  f64_to_i64 = λ a. pos a;
  f64_display = λ a. [];
  debug_str = λ s. s;
  replacen = λ s old new n. s;
  now_nanos = ok (pos 0);
}

abbrev run : Str → List Value → Outcome Value
run = eval_function floats

-- 2024-01-15T10:30:05.5Z
abbrev noon : ℤ
noon = pos 1705314605500000000

formatted :
    run (bytes "fn:time:format") (time noon ∷ string (bytes "/nanosecond") ∷ [])
    ≡ ok (string (bytes "2024-01-15T10:30:05.5Z"))
unfolding eval_function
formatted = refl

parsed_back :
    run (bytes "fn:time:parse_rfc3339") (string (bytes "2024-01-15T10:30:05.5Z") ∷ [])
    ≡ ok (time noon)
unfolding eval_function
parsed_back = refl

-- an offset after the seconds is passed over
offset_ignored :
    parse_rfc3339_to_nanos (bytes "2024-01-15T10:30:05+05:30")
    ≡ parse_rfc3339_to_nanos (bytes "2024-01-15T10:30:05Z")
unfolding parse_rfc3339_to_nanos
offset_ignored = refl

offset : parse_timezone_offset (bytes "-08:30") ≡ ok (negsuc 30599)
unfolding parse_timezone_offset
offset = refl

written : format_duration_nanos (pos 5400000000000) ≡ bytes "1h30m0s"
unfolding format_duration_nanos
written = refl

read : parse_duration_string floats (bytes "-1h30m") ≡ ok (negsuc 5399999999999)
unfolding parse_duration_string
read = refl

divided : run (bytes "fn:div") (number (negsuc 6) ∷ number (pos 2) ∷ []) ≡ ok (number (negsuc 2))
unfolding eval_function
divided = refl

-- i64::MIN / -1
divided_out :
    run (bytes "fn:div") (number (negsuc 9223372036854775807) ∷ number (negsuc 0) ∷ []) ≡ panic
unfolding eval_function
divided_out = refl

days_back_example :
    let c = civil_from_epoch_secs (negsuc 0) in
    days_from_civil c.year c.month c.day ≡ div_euclid (negsuc 0) 86400
days_back_example = days_from_civil-civil_from_epoch_secs (negsuc 0)

components_example :
    (m d h i s : ℕ) × (eval_function floats (bytes "fn:time:month") (time noon ∷ [])
      ≡ ok (number (pos m)))
    × (eval_function floats (bytes "fn:time:day") (time noon ∷ []) ≡ ok (number (pos d)))
    × (eval_function floats (bytes "fn:time:hour") (time noon ∷ []) ≡ ok (number (pos h)))
    × (eval_function floats (bytes "fn:time:minute") (time noon ∷ []) ≡ ok (number (pos i)))
    × (eval_function floats (bytes "fn:time:second") (time noon ∷ []) ≡ ok (number (pos s)))
    × (1 ≤ m)
    × (m ≤ 12)
    × (1 ≤ d)
    × (d ≤ 31)
    × (h < 24)
    × (i < 60)
    × (s < 60)
components_example = eval_function-time_bounds floats noon

year : (civil_from_epoch_secs (div_euclid noon (10 ^ 9))).year ≡ pos 2024
unfolding civil_from_epoch_secs div_euclid
year = refl

to_second :
    eval_function floats (bytes "fn:time:format") (time noon ∷ string (bytes "/second") ∷ [])
    ≡ ok (string (bytes "2024-01-15T10:30:05Z"))
unfolding eval_function
to_second = refl

stamp_example :
    eval_function floats
      (bytes "fn:time:parse_rfc3339")
      (string (bytes "2024-01-15T10:30:05Z") ∷ [])
    ≡ eval_function floats (bytes "fn:time:trunc") (time noon ∷ name (bytes "/second") ∷ [])
stamp_example =
    eval_function-parse-format floats noon 2024 (string (bytes "2024-01-15T10:30:05Z")) year
      (omega arith) to_second

abbrev ages : Value
ages =
    compound Value.map
      (of_list (name (bytes "/ada") ∷ number (pos 36) ∷ name (bytes "/bob") ∷ number (pos 7) ∷ []))

abbrev names : Values
names = of_list (name (bytes "/ada") ∷ name (bytes "/bob") ∷ [])

abbrev numbers : Values
numbers = of_list (number (pos 36) ∷ number (pos 7) ∷ [])

ages_keys : eval_function floats (bytes "fn:map:keys") (ages ∷ []) ≡ ok (compound Value.list names)
unfolding eval_function
ages_keys = refl

ages_values :
    eval_function floats (bytes "fn:map:values") (ages ∷ []) ≡ ok (compound Value.list numbers)
unfolding eval_function
ages_values = refl

map_get_example :
    eval_function floats (bytes "fn:map:get") (ages ∷ name (bytes "/bob") ∷ [])
    ≡ ok_or
        (lookup (name (bytes "/bob")) (
          zip
            (name (bytes "/ada") ∷ name (bytes "/bob") ∷ [])
            (number (pos 36) ∷ number (pos 7) ∷ [])))
        Error.bad_argument
map_get_example =
    eval_function-map_get floats ages (name (bytes "/bob")) names numbers ages_keys ages_values

abbrev one_two : Value
one_two = compound Value.list (of_list (number (pos 1) ∷ number (pos 2) ∷ []))

abbrev one_two_three : Value
one_two_three =
    compound Value.list (of_list (number (pos 1) ∷ number (pos 2) ∷ number (pos 3) ∷ []))

appended :
    eval_function floats (bytes "fn:list:append") (one_two ∷ number (pos 3) ∷ []) ≡ ok one_two_three
unfolding eval_function
appended = refl

counted : eval_function floats (bytes "fn:list:len") (one_two ∷ []) ≡ ok (number (pos 2))
unfolding eval_function
counted = refl

append_example :
    (eval_function floats (bytes "fn:list:len") (one_two_three ∷ []) ≡ ok (number (pos 3)))
    × (eval_function floats (bytes "fn:list:get") (one_two_three ∷ number (pos 2) ∷ [])
        ≡ ok (number (pos 3)))
append_example =
    eval_function-list_append floats one_two (number (pos 3)) one_two_three 2 appended counted
