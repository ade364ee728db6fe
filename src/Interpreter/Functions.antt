-- ===== src/Interpreter/Functions.antt =====
-- crates/mangle-interpreter/src/lib.rs, `eval_function`: its arms by name, in the modules of the kinds of
-- function. The match takes the first arm with the name.
pub mod Ints
pub mod Civil
pub mod Decimal
pub mod Display
pub mod Parse
pub mod Given
pub mod Numbers
pub mod Times
pub mod Compounds
use mangle_rs.Prelude.{
  ◌*◌, ◌^◌, Option, none, some, List, [], ◌∷◌, ◌++◌, if◌then◌else◌, ◌==◌, nat_eq, list_eq, pair_eq,
  Str, bytes, Error, Outcome, ok, err, unknown_function, int_eq,
}
use mangle_rs.Common.Value.{Value, string}
use mangle_rs.Interpreter.Functions.Given.{Floats}
use mangle_rs.Interpreter.Functions.Numbers.{
  fn_plus, fn_minus, fn_mult, fn_div, fn_float_plus, fn_float_minus, fn_float_mult, fn_float_div,
  fn_sqrt, concat_strings, fn_string_replace, fn_number_to_string, fn_float64_to_string,
  fn_name_to_string,
}
use mangle_rs.Interpreter.Functions.Times.{
  fn_time_now, fn_time_add, fn_time_sub, fn_time_year, fn_time_month, fn_time_day, fn_time_hour,
  fn_time_minute, fn_time_second, fn_from_unix_nanos, fn_to_unix_nanos, fn_time_trunc,
  fn_time_format, fn_time_format_civil, fn_parse_rfc3339, fn_parse_civil, fn_duration_add,
  fn_duration_mult, duration_component_float, duration_component_int, duration_from_nanos,
  duration_from, fn_duration_parse,
}
use mangle_rs.Interpreter.Functions.Compounds.{
  fn_list, fn_pair, fn_struct, fn_map, fn_list_get, fn_list_append, fn_len, fn_pair_first,
  fn_pair_second, fn_get, fn_pairs_len, fn_map_keys, fn_map_values,
}

-- the first arm with the name
unfoldable pub find_arm :
    Str → List (Str × (List Value → Outcome Value)) → Option (List Value → Outcome Value)
find_arm fn_name [] = none
find_arm fn_name ((name, arm) ∷ arms) = if name == fn_name then some arm else find_arm fn_name arms

unfoldable pub run_arm : Option (List Value → Outcome Value) → List Value → Outcome Value
run_arm none vals = err Error.unknown_function
run_arm (some arm) vals = arm vals

module _ (c : Floats) where
  -- the arms of the match, in order
  unfoldable pub number_arms : List (Str × (List Value → Outcome Value))
  unfolding fn_plus fn_minus fn_mult fn_div fn_float_plus fn_float_minus fn_float_mult fn_float_div
      fn_sqrt concat_strings fn_string_replace fn_number_to_string fn_float64_to_string
      fn_name_to_string
  number_arms =
      (bytes "fn:plus", fn_plus)
      ∷ (bytes "fn:minus", fn_minus)
      ∷ (bytes "fn:mult", fn_mult)
      ∷ (bytes "fn:div", fn_div)
      ∷ (bytes "fn:float:plus", fn_float_plus c)
      ∷ (bytes "fn:float:minus", fn_float_minus c)
      ∷ (bytes "fn:float:mult", fn_float_mult c)
      ∷ (bytes "fn:float:div", fn_float_div c)
      ∷ (bytes "fn:sqrt", fn_sqrt c)
      ∷ (bytes "fn:string:concat", λ vs. ok (string (concat_strings c vs)))
      ∷ (bytes "fn:string:replace", fn_string_replace c)
      ∷ (bytes "fn:number:to_string", fn_number_to_string)
      ∷ (bytes "fn:float64:to_string", fn_float64_to_string c)
      ∷ (bytes "fn:name:to_string", fn_name_to_string)
      ∷ []

  -- the arms of the match, in order
  unfoldable pub time_arms : List (Str × (List Value → Outcome Value))
  unfolding fn_time_now fn_time_add fn_time_sub fn_time_year fn_time_month fn_time_day fn_time_hour
      fn_time_minute fn_time_second fn_from_unix_nanos fn_to_unix_nanos fn_time_trunc fn_time_format
      fn_time_format_civil fn_parse_rfc3339 fn_parse_civil
  time_arms =
      (bytes "fn:time:now", fn_time_now c)
      ∷ (bytes "fn:time:add", fn_time_add)
      ∷ (bytes "fn:time:sub", fn_time_sub)
      ∷ (bytes "fn:time:year", fn_time_year)
      ∷ (bytes "fn:time:month", fn_time_month)
      ∷ (bytes "fn:time:day", fn_time_day)
      ∷ (bytes "fn:time:hour", fn_time_hour)
      ∷ (bytes "fn:time:minute", fn_time_minute)
      ∷ (bytes "fn:time:second", fn_time_second)
      ∷ (bytes "fn:time:from_unix_nanos", fn_from_unix_nanos)
      ∷ (bytes "fn:time:to_unix_nanos", fn_to_unix_nanos)
      ∷ (bytes "fn:time:trunc", fn_time_trunc)
      ∷ (bytes "fn:time:format", fn_time_format)
      ∷ (bytes "fn:time:format_civil", fn_time_format_civil)
      ∷ (bytes "fn:time:parse_rfc3339", fn_parse_rfc3339)
      ∷ (bytes "fn:time:parse_civil", fn_parse_civil)
      ∷ []

  -- the arms of the match, in order
  unfoldable pub duration_arms : List (Str × (List Value → Outcome Value))
  unfolding fn_duration_add fn_duration_mult duration_component_float duration_component_int
      duration_from_nanos duration_from fn_duration_parse
  duration_arms =
      (bytes "fn:duration:add", fn_duration_add)
      ∷ (bytes "fn:duration:mult", fn_duration_mult)
      ∷ (bytes "fn:duration:hours", duration_component_float c (3600 * 10 ^ 9))
      ∷ (bytes "fn:duration:minutes", duration_component_float c (60 * 10 ^ 9))
      ∷ (bytes "fn:duration:seconds", duration_component_float c (10 ^ 9))
      ∷ (bytes "fn:duration:nanos", duration_component_int)
      ∷ (bytes "fn:duration:from_nanos", duration_from_nanos)
      ∷ (bytes "fn:duration:from_hours", duration_from (3600 * 10 ^ 9))
      ∷ (bytes "fn:duration:from_minutes", duration_from (60 * 10 ^ 9))
      ∷ (bytes "fn:duration:from_seconds", duration_from (10 ^ 9))
      ∷ (bytes "fn:duration:parse", fn_duration_parse c)
      ∷ []

  -- the arms of the match, in order
  unfoldable pub compound_arms : List (Str × (List Value → Outcome Value))
  unfolding fn_list fn_pair fn_struct fn_map fn_list_get fn_list_append fn_len fn_pair_first
      fn_pair_second fn_get fn_pairs_len fn_map_keys fn_map_values
  compound_arms =
      (bytes "fn:list", fn_list)
      ∷ (bytes "fn:pair", fn_pair)
      ∷ (bytes "fn:struct", fn_struct)
      ∷ (bytes "fn:map", fn_map)
      ∷ (bytes "fn:list:get", fn_list_get)
      ∷ (bytes "fn:list:append", fn_list_append)
      ∷ (bytes "fn:list:len", fn_len)
      ∷ (bytes "fn:len", fn_len)
      ∷ (bytes "fn:pair:first", fn_pair_first)
      ∷ (bytes "fn:pair:second", fn_pair_second)
      ∷ (bytes "fn:struct:get", fn_get)
      ∷ (bytes "fn:map:get", fn_get)
      ∷ (bytes "fn:map:len", fn_pairs_len)
      ∷ (bytes "fn:struct:len", fn_pairs_len)
      ∷ (bytes "fn:map:keys", fn_map_keys)
      ∷ (bytes "fn:map:values", fn_map_values)
      ∷ (bytes "fn:struct:values", fn_map_values)
      ∷ []

  unfoldable pub eval_function : Str → List Value → Outcome Value
  unfolding find_arm run_arm number_arms time_arms duration_arms compound_arms
  eval_function fn_name vals =
      run_arm (find_arm fn_name (number_arms ++ time_arms ++ duration_arms ++ compound_arms)) vals
