-- ===== src/Interpreter/Functions/Parse/Stamp.antt =====
-- A timestamp to the second, as `format_time_with_precision` writes it and `parse_rfc3339_to_nanos` reads
-- it.
use mangle_rs.Prelude.{
  ℕ, ◌+◌, ◌-◌, ◌*◌, ◌/◌, ◌%◌, ◌^◌, ◌<◌, ◌≡◌, refl, sym, ap, ◌∙◌, ap₂, true, Option, some, [], ◌∷◌,
  ◌++◌, arith, leb, take, drop, nat_eq, list_eq, pair_eq, Str, bytes, Outcome, ◌>>=◌, bind-ok, ok,
  ℤ, ◌+ℤ◌, int_eq, wrap_i64,
}
use mangle_rs.Prelude.{pos, negsuc}
use mangle_rs.Interpreter.Functions.Ints.{neg_ℤ, ◌*ℤ◌, div_euclid, rem_euclid}
use mangle_rs.Interpreter.Functions.Civil.{civil_from_epoch_secs, days_from_civil}
use mangle_rs.Interpreter.Functions.Civil.RoundTrip.{
  civil_from_epoch_secs_bounds, rem_euclid_lt, days_from_civil-civil_from_epoch_secs,
}
use mangle_rs.Interpreter.Functions.Decimal.{signed_pad, parse_u32, parse_i64}
use mangle_rs.Interpreter.Functions.Display.{format_seconds}
use mangle_rs.Interpreter.Functions.Parse.{
  is_char_boundary, slice, parsed, field, parse_fraction, parse_time_of_day, parse_rfc3339_to_nanos,
}
use mangle_rs.Interpreter.Functions.Parse.Fields.{
  two, four, pad-two, pad-four, parse_u32-two, parse_i64-four, digit_byte,
}

-- the text of a timestamp
abbrev pub stamp : ℕ → ℕ → ℕ → ℕ → ℕ → ℕ → Str
stamp y m d h i s =
    four y ++ 45 ∷ two m ++ 45 ∷ two d ++ 84 ∷ two h ++ 58 ∷ two i ++ 58 ∷ two s ++ 90 ∷ []

slice_ok :
    (s : Str) (a b : ℕ)
    → leb a b ≡ true
    → is_char_boundary s a ≡ true
    → is_char_boundary s b ≡ true
    → slice s a b ≡ ok (take (b - a) (drop a s))
unfolding slice
slice_ok s a b le ha hb = ground arith

parsed-some : {A : Type 0} {o : Option A} {a : A} → o ≡ some a → parsed o ≡ ok a
unfolding parsed
parsed-some e = ap parsed e

field_ok :
    (text : Str) (a n : ℕ)
    → n < 100
    → is_char_boundary text a ≡ true
    → is_char_boundary text (a + 2) ≡ true
    → take (a + 2 - a) (drop a text) ≡ two n
    → field text a ≡ ok n
unfolding field parsed
field_ok text a n h ha hb e =
    ap (λ o. o >>= λ t. parsed (parse_u32 t)) (slice_ok text a (a + 2) (ground arith) ha hb)
    ∙ ap (λ t. parsed (parse_u32 t)) e
    ∙ ap parsed (parse_u32-two n h)

module _ (y m d h i s : ℕ) (hy : y < 10000) (hm : m < 100) (hd : d < 100) (hh : h < 100)
    (hi : i < 100) (hs : s < 100) where
  abbrev text : Str
  text = stamp y m d h i s

  year_field : slice text 0 4 ≡ ok (four y)
  unfolding slice is_char_boundary
  year_field = refl

  month_field : field text 5 ≡ ok m
  unfolding is_char_boundary
  month_field = field_ok text 5 m hm (digit_byte (m / 10) (omega arith)) refl refl

  day_field : field text 8 ≡ ok d
  unfolding is_char_boundary
  day_field = field_ok text 8 d hd (digit_byte (d / 10) (omega arith)) refl refl

  hour_field : field text 11 ≡ ok h
  unfolding is_char_boundary
  hour_field = field_ok text 11 h hh (digit_byte (h / 10) (omega arith)) refl refl

  minute_field : field text 14 ≡ ok i
  unfolding is_char_boundary
  minute_field = field_ok text 14 i hi (digit_byte (i / 10) (omega arith)) refl refl

  second_field : field text 17 ≡ ok s
  unfolding is_char_boundary
  second_field = field_ok text 17 s hs (digit_byte (s / 10) (omega arith)) refl refl

  read_time : parse_time_of_day text ≡ ok (h * 3600 + i * 60 + s, pos 0)
  unfolding parse_time_of_day parse_fraction
  read_time = rw (hour_field, minute_field, second_field) refl

  -- the nanoseconds of a date, a time of day and a fraction
  abbrev nanos_of : ℤ → ℕ → ℕ → ℕ × ℤ → Outcome ℤ
  nanos_of year month day p =
      ok
        (wrap_i64 ((days_from_civil year month day *ℤ pos 86400 +ℤ pos p.0) *ℤ pos (10 ^ 9) +ℤ p.1))

  read_stamp : parse_rfc3339_to_nanos text ≡ nanos_of (pos y) m d (h * 3600 + i * 60 + s, pos 0)
  unfolding parse_rfc3339_to_nanos slice is_char_boundary
  read_stamp =
      bind-ok (parsed (parse_i64 (four y)))
        (λ year. field text 5 >>= λ month.
          field text 8 >>= λ day. parse_time_of_day text >>= λ p. nanos_of year month day p)
        (parsed-some (parse_i64-four y hy))
        (bind-ok (field text 5)
          (λ month.
            field text 8 >>= λ day. parse_time_of_day text >>= λ p. nanos_of (pos y) month day p)
          month_field
          (bind-ok (field text 8) (λ day. parse_time_of_day text >>= λ p. nanos_of (pos y) m day p)
            day_field
            (bind-ok (parse_time_of_day text) (λ p. nanos_of (pos y) m d p) read_time refl)))

seconds_back : (secs : ℤ) → div_euclid secs 86400 *ℤ pos 86400 +ℤ pos (rem_euclid secs 86400) ≡ secs
unfolding div_euclid rem_euclid ◌+ℤ◌ ◌*ℤ◌ neg_ℤ
seconds_back (pos n) = ground arith
seconds_back (negsuc n) = ground arith

plus_none : (z : ℤ) → z +ℤ pos 0 ≡ z
unfolding ◌+ℤ◌
plus_none (pos n) = ground arith
plus_none (negsuc n) = ground arith

-- the text of a time in the years 0 to 9999
format_seconds-stamp :
    (secs : ℤ) (y : ℕ)
    → (civil_from_epoch_secs secs).year ≡ pos y
    → y < 10000
    → let c = civil_from_epoch_secs secs in
      let r = rem_euclid secs 86400 in
      format_seconds secs ++ bytes "Z" ≡ stamp y c.month c.day (r / 3600) (r % 3600 / 60) (r % 60)
unfolding format_seconds signed_pad
format_seconds-stamp secs y e hy =
    let (_, hm, _, hd) = civil_from_epoch_secs_bounds secs in
    let small = rem_euclid_lt secs 86400 (omega arith) in
    let c = civil_from_epoch_secs secs in
    let r = rem_euclid secs 86400 in
    rw
      (
        e,
        pad-four y hy,
        pad-two c.month (omega arith),
        pad-two c.day (omega arith),
        pad-two (r / 3600) (omega arith),
        pad-two (r % 3600 / 60) (omega arith),
        pad-two (r % 60) (omega arith),
      )
      refl

pub parse_rfc3339_to_nanos-format_seconds :
    (secs : ℤ) (y : ℕ)
    → (civil_from_epoch_secs secs).year ≡ pos y
    → y < 10000
    → parse_rfc3339_to_nanos (format_seconds secs ++ bytes "Z")
      ≡ ok (wrap_i64 (secs *ℤ pos (10 ^ 9)))
parse_rfc3339_to_nanos-format_seconds secs y e hy =
    let (_, hm, _, hd) = civil_from_epoch_secs_bounds secs in
    let small = rem_euclid_lt secs 86400 (omega arith) in
    let c = civil_from_epoch_secs secs in
    let r = rem_euclid secs 86400 in
    let day : days_from_civil (pos y) c.month c.day ≡ div_euclid secs 86400 =
      ap (λ z. days_from_civil z c.month c.day) (sym e)
      ∙ days_from_civil-civil_from_epoch_secs secs in
    let clock : r / 3600 * 3600 + r % 3600 / 60 * 60 + r % 60 ≡ r = omega arith in
    ap parse_rfc3339_to_nanos (format_seconds-stamp secs y e hy)
    ∙ read_stamp y c.month c.day (r / 3600) (r % 3600 / 60) (r % 60) hy (omega arith) (omega arith)
        (omega arith) (omega arith) (omega arith)
    ∙ ap ok (
        ap wrap_i64 (
          plus_none _
          ∙ ap (λ z. z *ℤ pos (10 ^ 9))
              (ap₂ (λ a b. a *ℤ pos 86400 +ℤ pos b) day clock ∙ seconds_back secs)))
