-- ===== src/Interpreter/Functions/Parse.antt =====
-- crates/mangle-interpreter/src/lib.rs: time zones, timestamps and precisions. Slicing a string at a
-- place inside a character, or past its end, is `panic`. An i64 wraps once, at the end of a sum or
-- product, which leaves the number that wrapping at each step leaves.
pub mod Fields
pub mod Stamp
use mangle_rs.Prelude.{
  ℕ, zero, suc, ◌+◌, ◌-◌, ◌*◌, ◌/◌, ◌%◌, ◌^◌, Bool, true, false, ◌&&◌, ◌||◌, not, Option, none,
  some, List, [], ◌∷◌, ◌++◌, ltb, leb, if◌then◌else◌, get_or, length, get_elem?, take, drop, ◌==◌,
  nat_eq, list_eq, pair_eq, Str, bytes, Error, Outcome, ◌>>=◌, ok, err, panic, bad_argument, ℤ,
  ◌+ℤ◌, int_eq, wrap_i64,
}
use mangle_rs.Prelude.{pos, negsuc}
use mangle_rs.Interpreter.Text.{starts_with, ends_with}
use mangle_rs.Interpreter.Functions.Ints.{neg_ℤ, ◌*ℤ◌, div_euclid, rem_euclid}
use mangle_rs.Interpreter.Functions.Civil.{civil_from_epoch_secs, days_from_civil}
use mangle_rs.Interpreter.Functions.Decimal.{
  pad, signed_pad, trim_zeros, zeros, parse_u32, parse_i64,
}
use mangle_rs.Interpreter.Functions.Display.{format_seconds}

-- `is_char_boundary` inside the string: no continuation byte stands there
unfoldable pub is_char_boundary : Str → ℕ → Bool
is_char_boundary [] zero = true
is_char_boundary [] (suc i) = false
is_char_boundary (c ∷ s) zero = not (leb 128 c && leb c 191)
is_char_boundary (c ∷ s) (suc i) = is_char_boundary s i

-- `&s[a..b]`
unfoldable pub slice : Str → ℕ → ℕ → Outcome Str
unfolding is_char_boundary
slice s a b =
    if leb a b && (a == 0 || is_char_boundary s a) && is_char_boundary s b
    then ok (take (b - a) (drop a s))
    else panic

unfoldable pub format_time_with_precision : ℤ → Str → Outcome Str
unfolding format_seconds civil_from_epoch_secs div_euclid rem_euclid pad signed_pad trim_zeros
format_time_with_precision nanos precision =
    let secs = div_euclid nanos (10 ^ 9) in
    let sub_nanos = rem_euclid nanos (10 ^ 9) in
    let c = civil_from_epoch_secs secs in
    let time_of_day = rem_euclid secs 86400 in
    let year = signed_pad 4 c.year in
    let month = year ++ bytes "-" ++ pad 2 c.month in
    let day = month ++ bytes "-" ++ pad 2 c.day in
    let hour = day ++ bytes "T" ++ pad 2 (time_of_day / 3600) in
    let minute = hour ++ bytes ":" ++ pad 2 (time_of_day % 3600 / 60) in
    let second = format_seconds secs in
    if precision == bytes "/year"
    then ok year
    else if precision == bytes "/month"
    then ok month
    else if precision == bytes "/day"
    then ok day
    else if precision == bytes "/hour"
    then ok (hour ++ bytes "Z")
    else if precision == bytes "/minute"
    then ok (minute ++ bytes "Z")
    else if precision == bytes "/second"
    then ok (second ++ bytes "Z")
    else if precision == bytes "/millisecond"
    then ok (second ++ bytes "." ++ pad 3 (sub_nanos / 10 ^ 6) ++ bytes "Z")
    else if precision == bytes "/microsecond"
    then ok (second ++ bytes "." ++ pad 6 (sub_nanos / 10 ^ 3) ++ bytes "Z")
    else if precision == bytes "/nanosecond"
    then ok (
        if sub_nanos == 0
        then second ++ bytes "Z"
        else second ++ bytes "." ++ trim_zeros (pad 9 sub_nanos) ++ bytes "Z")
    else err Error.bad_argument

-- `split(':')`
unfoldable pub split_colon : Str → List Str
split_colon [] = [] ∷ []
split_colon (c ∷ s) = elim (c == 58) [
  | true ↦ [] ∷ split_colon s
  | false ↦ elim (split_colon s) [ [] ↦ (c ∷ []) ∷ [] | p ∷ ps ↦ (c ∷ p) ∷ ps ]
]

unfoldable pub parsed {ℓ} : {A : Type ℓ} → Option A → Outcome A
parsed none = err Error.bad_argument
parsed (some a) = ok a

-- the offset of a sign and what stands after it
unfoldable pub signed_offset : Bool → List Str → Outcome ℤ
unfolding parse_i64 parsed ◌+ℤ◌ ◌*ℤ◌ neg_ℤ wrap_i64
signed_offset minus (h ∷ m ∷ []) = parsed (parse_i64 h) >>= λ hours.
    parsed (parse_i64 m) >>= λ minutes.
    let seconds = hours *ℤ pos 3600 +ℤ minutes *ℤ pos 60 in
    ok (wrap_i64 (if minus then neg_ℤ seconds else seconds))
signed_offset minus _ = err Error.bad_argument

unfoldable pub parse_timezone_offset : Str → Outcome ℤ
unfolding split_colon signed_offset
parse_timezone_offset [] = err Error.bad_argument
parse_timezone_offset (c ∷ rest) =
    if c ∷ rest == bytes "UTC"
    then ok (pos 0)
    else if c == 43
    then signed_offset false (split_colon rest)
    else if c == 45
    then signed_offset true (split_colon rest)
    else err Error.bad_argument

-- the number of characters: bytes that continue one do not count
unfoldable pub char_count : Str → ℕ
char_count [] = 0
char_count (c ∷ s) = if leb 128 c && leb c 191 then char_count s else suc (char_count s)

-- `padded[..9].parse::<i64>().unwrap_or(0)` of the text between the point and the end
unfoldable pub fraction : Str → Outcome ℤ
unfolding slice zeros parse_i64 char_count
fraction frac_str = slice (frac_str ++ zeros (9 - char_count frac_str)) 0 9 >>= λ nine.
    ok (get_or (parse_i64 nine) (pos 0))

unfoldable pub parse_fraction : Str → Outcome ℤ
unfolding slice fraction ends_with
parse_fraction s = elim (get_or (get_elem? s 19) 0 == 46) [
  | true ↦ slice s 20 (length s - (if ends_with s (bytes "Z") then 1 else 0)) >>= fraction
  | false ↦ ok (pos 0)
]

-- a two-digit field
unfoldable pub field : Str → ℕ → Outcome ℕ
unfolding slice parse_u32 parsed
field s a = slice s a (a + 2) >>= λ text. parsed (parse_u32 text)

-- the seconds of the day and the nanoseconds
unfoldable pub parse_time_of_day : Str → Outcome (ℕ × ℤ)
unfolding field parse_fraction
parse_time_of_day s = elim (get_or (get_elem? s 10) 0 == 84) [
  | true ↦ elim (ltb (length s) 19) [
    | true ↦ err Error.bad_argument
    | false ↦ field s 11 >>= λ h. field s 14 >>= λ min.
        field s 17 >>= λ sec. parse_fraction s >>= λ frac. ok (h * 3600 + min * 60 + sec, frac)
  ]
  | false ↦ ok (0, pos 0)
]

unfoldable pub parse_rfc3339_to_nanos : Str → Outcome ℤ
unfolding slice parse_i64 parsed field parse_time_of_day days_from_civil ◌+ℤ◌ ◌*ℤ◌ wrap_i64
parse_rfc3339_to_nanos s =
    if ltb (length s) 10
    then err Error.bad_argument
    else slice s 0 4 >>= λ y. parsed (parse_i64 y) >>= λ year. field s 5 >>= λ month.
        field s 8 >>= λ day. parse_time_of_day s >>= λ (time_of_day, frac_nanos).
        let total_seconds = days_from_civil year month day *ℤ pos 86400 +ℤ pos time_of_day in
        ok (wrap_i64 (total_seconds *ℤ pos (10 ^ 9) +ℤ frac_nanos))
