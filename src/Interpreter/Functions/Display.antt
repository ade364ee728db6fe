-- ===== src/Interpreter/Functions/Display.antt =====
-- crates/mangle-common/src/lib.rs, `Display` of `Value`. How the language writes a float and quotes a
-- string are parameters. The source repeats the date computation of `civil_from_epoch_secs` here.
use mangle_rs.Prelude.{
  ℕ, zero, suc, ◌*◌, ◌/◌, ◌%◌, ◌^◌, Bool, true, false, ◌||◌, [], ◌∷◌, ◌++◌, ltb, leb, if◌then◌else◌,
  ◌==◌, nat_eq, list_eq, pair_eq, Str, bytes, ℤ, int_eq,
}
use mangle_rs.Prelude.{pos, negsuc}
use mangle_rs.Common.Value
use mangle_rs.Common.Value.{
  Value, Values, nil, cons, number, float, string, name, time, duration, compound, null,
}
use mangle_rs.Interpreter.Functions.Ints.{div_euclid, rem_euclid}
use mangle_rs.Interpreter.Functions.Civil.{civil_from_epoch_secs}
use mangle_rs.Interpreter.Functions.Decimal.{decimal, pad, signed_decimal, signed_pad, trim_zeros}

-- year, month, day, hour, minute and second as `{y:04}-{m:02}-{d:02}T{hour:02}:{minute:02}:{second:02}`
unfoldable pub format_seconds : ℤ → Str
unfolding civil_from_epoch_secs rem_euclid pad signed_pad
format_seconds secs =
    let c = civil_from_epoch_secs secs in
    let time_of_day = rem_euclid secs 86400 in
    signed_pad 4 c.year
    ++ 45 ∷ pad 2 c.month
    ++ 45 ∷ pad 2 c.day
    ++ 84 ∷ pad 2 (time_of_day / 3600)
    ++ 58 ∷ pad 2 (time_of_day % 3600 / 60)
    ++ 58 ∷ pad 2 (time_of_day % 60)

unfoldable pub format_time_nanos : ℤ → Str
unfolding format_seconds div_euclid rem_euclid pad trim_zeros
format_time_nanos nanos =
    let ns = rem_euclid nanos (10 ^ 9) in
    if ns == 0
    then format_seconds (div_euclid nanos (10 ^ 9)) ++ bytes "Z"
    else format_seconds (div_euclid nanos (10 ^ 9))
      ++ bytes "."
      ++ trim_zeros (pad 9 ns)
      ++ bytes "Z"

-- a number with a fraction, when there is one, before its unit
unfoldable pub with_fraction : ℕ → ℕ → ℕ → Str → Str
unfolding decimal pad trim_zeros
with_fraction whole width sub unit =
    if sub == 0
    then decimal whole ++ unit
    else decimal whole ++ bytes "." ++ trim_zeros (pad width sub) ++ unit

-- "µs"
abbrev pub micros : Str
micros = 194 ∷ 181 ∷ 115 ∷ []

unfoldable pub format_duration_abs : ℕ → Str
unfolding decimal with_fraction
format_duration_abs remaining =
    let hours = remaining / (3600 * 10 ^ 9) in
    let rest = remaining % (3600 * 10 ^ 9) in
    let minutes = rest / (60 * 10 ^ 9) in
    let rest' = rest % (60 * 10 ^ 9) in
    if leb (10 ^ 9) remaining
    then (if ltb 0 hours then decimal hours ++ bytes "h" else [])
      ++ (if ltb 0 minutes || ltb 0 hours then decimal minutes ++ bytes "m" else [])
      ++ with_fraction (rest' / 10 ^ 9) 9 (rest' % 10 ^ 9) (bytes "s")
    else if leb (10 ^ 6) remaining
    then with_fraction (remaining / 10 ^ 6) 6 (remaining % 10 ^ 6) (bytes "ms")
    else if leb (10 ^ 3) remaining
    then with_fraction (remaining / 10 ^ 3) 3 (remaining % 10 ^ 3) micros
    else decimal remaining ++ bytes "ns"

unfoldable pub format_duration_nanos : ℤ → Str
unfolding format_duration_abs
format_duration_nanos (pos zero) = bytes "0s"
format_duration_nanos (pos (suc n)) = format_duration_abs (suc n)
format_duration_nanos (negsuc n) = 45 ∷ format_duration_abs (suc n)

-- `if i > 0 { write!(f, ", ") }`
unfoldable pub comma : Bool → Str
comma true = []
comma false = bytes ", "

module _ (f64_display : ℕ → Str) (debug_str : Str → Str) where
  unfoldable mutual
    unfolding signed_decimal format_time_nanos format_duration_nanos comma

    pub display : Value → Str
    display (number n) = signed_decimal n
    display (float v) = f64_display v
    display (string s) = debug_str s
    display (name s) = s
    display (time nanos) = format_time_nanos nanos
    display (duration nanos) = format_duration_nanos nanos
    display (compound Value.list elems) = bytes "[" ++ display_elems true elems ++ bytes "]"
    display (compound Value.pair elems) = bytes "[" ++ display_elems true elems ++ bytes "]"
    display (compound Value.map elems) = bytes "[" ++ display_pairs true elems ++ bytes "]"
    display (compound Value.struct elems) = bytes "{" ++ display_pairs true elems ++ bytes "}"
    display null = bytes "null"

    pub display_elems : Bool → Values → Str
    display_elems first nil = []
    display_elems first (cons e elems) = comma first ++ display e ++ display_elems false elems

    -- `chunks_exact(2)`
    pub display_pairs : Bool → Values → Str
    display_pairs first nil = []
    display_pairs first (cons k nil) = []
    display_pairs first (cons k (cons v elems)) =
        comma first ++ display k ++ bytes ": " ++ display v ++ display_pairs false elems

  unfoldable pub value_to_string : Value → Str
  unfolding signed_decimal display
  value_to_string (number n) = signed_decimal n
  value_to_string (float f) = f64_display f
  value_to_string (string s) = s
  value_to_string (name s) = s
  value_to_string (time t) = display (time t)
  value_to_string (duration d) = display (duration d)
  value_to_string (compound kind elems) = display (compound kind elems)
  value_to_string null = bytes "null"
