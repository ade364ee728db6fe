-- ===== src/Interpreter/Functions/Times.antt =====
-- crates/mangle-interpreter/src/lib.rs, `eval_function`: the functions of times and durations.
pub mod Laws
use mangle_rs.Prelude.{
  ℕ, zero, suc, ◌*◌, ◌/◌, ◌%◌, ◌^◌, Bool, false, ◌&&◌, ◌||◌, List, [], ◌∷◌, leb, if◌then◌else◌,
  length, drop, ◌==◌, nat_eq, list_eq, pair_eq, Str, bytes, Error, Outcome, ◌>>=◌, ok, err,
  bad_argument, ℤ, ◌+ℤ◌, int_eq, wrap_i64,
}
use mangle_rs.Prelude.{pos, negsuc}
use mangle_rs.Common.Value.{Value, number, float, string, name, time, duration}
use mangle_rs.Interpreter.Text.{starts_with}
use mangle_rs.Interpreter.Functions.Ints.{neg_ℤ, ◌-ℤ◌, ◌*ℤ◌, div_euclid, rem_euclid}
use mangle_rs.Interpreter.Functions.Given.{Floats}
use mangle_rs.Interpreter.Functions.Civil.{civil_from_epoch_secs}
use mangle_rs.Interpreter.Functions.Decimal.{parse_i64}
use mangle_rs.Interpreter.Functions.Display.{micros}
use mangle_rs.Interpreter.Functions.Parse.{
  format_time_with_precision, parsed, parse_timezone_offset, parse_rfc3339_to_nanos,
}

unfoldable pub fn_time_now : Floats → List Value → Outcome Value
fn_time_now c [] = c.now_nanos >>= λ nanos. ok (time nanos)
fn_time_now c _ = err Error.bad_argument

unfoldable pub fn_time_add : List Value → Outcome Value
unfolding ◌+ℤ◌ wrap_i64
fn_time_add (time t ∷ duration d ∷ []) = ok (time (wrap_i64 (t +ℤ d)))
fn_time_add _ = err Error.bad_argument

unfoldable pub fn_time_sub : List Value → Outcome Value
unfolding ◌-ℤ◌ wrap_i64
fn_time_sub (time t1 ∷ time t2 ∷ []) = ok (duration (wrap_i64 (t1 -ℤ t2)))
fn_time_sub (time t ∷ duration d ∷ []) = ok (time (wrap_i64 (t -ℤ d)))
fn_time_sub _ = err Error.bad_argument

unfoldable pub time_component : (ℤ → ℤ) → List Value → Outcome Value
unfolding div_euclid
time_component extract (time nanos ∷ []) = ok (number (extract (div_euclid nanos (10 ^ 9))))
time_component extract _ = err Error.bad_argument

unfoldable pub fn_time_year : List Value → Outcome Value
unfolding time_component civil_from_epoch_secs
fn_time_year = time_component (λ secs. (civil_from_epoch_secs secs).year)

unfoldable pub fn_time_month : List Value → Outcome Value
unfolding time_component civil_from_epoch_secs
fn_time_month = time_component (λ secs. pos (civil_from_epoch_secs secs).month)

unfoldable pub fn_time_day : List Value → Outcome Value
unfolding time_component civil_from_epoch_secs
fn_time_day = time_component (λ secs. pos (civil_from_epoch_secs secs).day)

unfoldable pub fn_time_hour : List Value → Outcome Value
unfolding time_component rem_euclid
fn_time_hour = time_component (λ secs. pos (rem_euclid secs 86400 / 3600))

unfoldable pub fn_time_minute : List Value → Outcome Value
unfolding time_component rem_euclid
fn_time_minute = time_component (λ secs. pos (rem_euclid secs 86400 % 3600 / 60))

unfoldable pub fn_time_second : List Value → Outcome Value
unfolding time_component rem_euclid
fn_time_second = time_component (λ secs. pos (rem_euclid secs 86400 % 60))

unfoldable pub fn_from_unix_nanos : List Value → Outcome Value
fn_from_unix_nanos (number n ∷ []) = ok (time n)
fn_from_unix_nanos _ = err Error.bad_argument

unfoldable pub fn_to_unix_nanos : List Value → Outcome Value
fn_to_unix_nanos (time t ∷ []) = ok (number t)
fn_to_unix_nanos _ = err Error.bad_argument

unfoldable pub unit_nanos : Str → Outcome ℕ
unit_nanos unit =
    if unit == bytes "/nanosecond"
    then ok 1
    else if unit == bytes "/microsecond"
    then ok (10 ^ 3)
    else if unit == bytes "/millisecond"
    then ok (10 ^ 6)
    else if unit == bytes "/second"
    then ok (10 ^ 9)
    else if unit == bytes "/minute"
    then ok (60 * 10 ^ 9)
    else if unit == bytes "/hour"
    then ok (3600 * 10 ^ 9)
    else if unit == bytes "/day"
    then ok (24 * 3600 * 10 ^ 9)
    else err Error.bad_argument

unfoldable pub fn_time_trunc : List Value → Outcome Value
unfolding unit_nanos rem_euclid ◌-ℤ◌ wrap_i64
fn_time_trunc (time t ∷ name unit ∷ []) =
    unit_nanos unit >>= λ d. ok (time (wrap_i64 (t -ℤ pos (rem_euclid t d))))
fn_time_trunc _ = err Error.bad_argument

unfoldable pub fn_time_format : List Value → Outcome Value
unfolding format_time_with_precision
fn_time_format (time t ∷ string precision ∷ []) =
    format_time_with_precision t precision >>= λ s. ok (string s)
fn_time_format _ = err Error.bad_argument

unfoldable pub fn_time_format_civil : List Value → Outcome Value
unfolding parse_timezone_offset format_time_with_precision ◌+ℤ◌ ◌*ℤ◌ wrap_i64
fn_time_format_civil (time t ∷ string tz ∷ string precision ∷ []) =
    parse_timezone_offset tz >>= λ offset.
    format_time_with_precision (wrap_i64 (t +ℤ offset *ℤ pos (10 ^ 9))) precision >>= λ s.
    ok (string s)
fn_time_format_civil _ = err Error.bad_argument

unfoldable pub fn_parse_rfc3339 : List Value → Outcome Value
unfolding parse_rfc3339_to_nanos
fn_parse_rfc3339 (string s ∷ []) = parse_rfc3339_to_nanos s >>= λ nanos. ok (time nanos)
fn_parse_rfc3339 _ = err Error.bad_argument

unfoldable pub fn_parse_civil : List Value → Outcome Value
unfolding parse_timezone_offset parse_rfc3339_to_nanos ◌-ℤ◌ ◌*ℤ◌ wrap_i64
fn_parse_civil (string s ∷ string tz ∷ []) = parse_timezone_offset tz >>= λ offset.
    parse_rfc3339_to_nanos s >>= λ nanos. ok (time (wrap_i64 (nanos -ℤ offset *ℤ pos (10 ^ 9))))
fn_parse_civil _ = err Error.bad_argument

unfoldable pub fn_duration_add : List Value → Outcome Value
unfolding ◌+ℤ◌ wrap_i64
fn_duration_add (duration a ∷ duration b ∷ []) = ok (duration (wrap_i64 (a +ℤ b)))
fn_duration_add _ = err Error.bad_argument

unfoldable pub fn_duration_mult : List Value → Outcome Value
unfolding ◌*ℤ◌ wrap_i64
fn_duration_mult (duration d ∷ number n ∷ []) = ok (duration (wrap_i64 (d *ℤ n)))
fn_duration_mult (number n ∷ duration d ∷ []) = ok (duration (wrap_i64 (n *ℤ d)))
fn_duration_mult _ = err Error.bad_argument

-- hours, minutes or seconds, by the nanoseconds of one
unfoldable pub duration_component_float : Floats → ℕ → List Value → Outcome Value
duration_component_float c unit (duration nanos ∷ []) =
    ok (float (c.f64_div (c.as_f64 nanos) (c.as_f64 (pos unit))))
duration_component_float c unit _ = err Error.bad_argument

unfoldable pub duration_component_int : List Value → Outcome Value
duration_component_int (duration nanos ∷ []) = ok (number nanos)
duration_component_int _ = err Error.bad_argument

unfoldable pub duration_from_nanos : List Value → Outcome Value
duration_from_nanos (number n ∷ []) = ok (duration n)
duration_from_nanos _ = err Error.bad_argument

unfoldable pub duration_from : ℕ → List Value → Outcome Value
unfolding ◌*ℤ◌ wrap_i64
duration_from multiplier (number n ∷ []) = ok (duration (wrap_i64 (n *ℤ pos multiplier)))
duration_from multiplier _ = err Error.bad_argument

-- the digits and points at the front, and what follows
unfoldable pub number_part : Str → Str × Str
number_part [] = ([], [])
number_part (c ∷ s) =
    let (num, rest) = number_part s in
    if (leb 48 c && leb c 57) || c == 46 then (c ∷ num, rest) else ([], c ∷ s)

-- the nanoseconds of the unit at the front, and its length
unfoldable pub unit_part : Str → Outcome (ℕ × ℕ)
unfolding starts_with
unit_part rest =
    if starts_with rest (bytes "ns")
    then ok (1, 2)
    else if starts_with rest (bytes "us") || starts_with rest micros
    then ok (10 ^ 3, (if starts_with rest (194 ∷ 181 ∷ []) then 3 else 2))
    else if starts_with rest (bytes "ms")
    then ok (10 ^ 6, 2)
    else if starts_with rest (bytes "s")
    then ok (10 ^ 9, 1)
    else if starts_with rest (bytes "m")
    then ok (60 * 10 ^ 9, 1)
    else if starts_with rest (bytes "h")
    then ok (3600 * 10 ^ 9, 1)
    else err Error.bad_argument

module _ (c : Floats) where
  unfoldable pub part_nanos : Str → ℕ → Outcome ℤ
  unfolding parse_i64 parsed ◌*ℤ◌
  part_nanos num unit =
      if has_point num
      then (parsed (c.f64_parse num) >>= λ val.
          ok (c.f64_to_i64 (c.f64_mul val (c.as_f64 (pos unit)))))
      else parsed (parse_i64 num) >>= λ val. ok (val *ℤ pos unit)
    where
      has_point : Str → Bool
      has_point [] = false
      has_point (ch ∷ s) = ch == 46 || has_point s

  -- the loop; each round shortens the text, so its length is enough fuel
  unfoldable pub duration_parts : ℕ → ℤ → Str → Outcome ℤ
  unfolding number_part unit_part part_nanos ◌+ℤ◌ wrap_i64
  duration_parts zero total rest = ok total
  duration_parts (suc fuel) total [] = ok total
  duration_parts (suc fuel) total (ch ∷ s) =
      let (num, rest) = number_part (ch ∷ s) in
      if length num == 0
      then err Error.bad_argument
      else unit_part rest >>= λ (unit, unit_len). part_nanos num unit >>= λ nanos.
          duration_parts fuel (wrap_i64 (total +ℤ nanos)) (drop unit_len rest)

  unfoldable pub parse_duration_string : Str → Outcome ℤ
  unfolding duration_parts neg_ℤ wrap_i64
  parse_duration_string [] = err Error.bad_argument
  parse_duration_string (ch ∷ s) =
      if ch ∷ s == bytes "0" || ch ∷ s == bytes "0s"
      then ok (pos 0)
      else if ch == 45
      then (duration_parts (length s) (pos 0) s >>= λ total. ok (wrap_i64 (neg_ℤ total)))
      else if ch == 43
      then duration_parts (length s) (pos 0) s
      else duration_parts (suc (length s)) (pos 0) (ch ∷ s)

  unfoldable pub fn_duration_parse : List Value → Outcome Value
  unfolding parse_duration_string
  fn_duration_parse (string s ∷ []) = parse_duration_string s >>= λ nanos. ok (duration nanos)
  fn_duration_parse _ = err Error.bad_argument
