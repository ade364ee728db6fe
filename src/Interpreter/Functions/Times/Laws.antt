-- ===== src/Interpreter/Functions/Times/Laws.antt =====
-- What the functions of times compute, and that parsing a duration ends.
use native.Mathlib.Nat as Nat
use mangle_rs.Prelude.{
  ℕ, zero, suc, ◌+◌, ◌-◌, ◌*◌, ◌/◌, ◌%◌, ◌^◌, ◌≤◌, ◌<◌, ◌≡◌, refl, sym, ap, ◌∙◌, inl, inr, Bool,
  true, false, ◌&&◌, ◌||◌, [], ◌∷◌, arith, leb, if◌then◌else◌, Bool-cases, length, drop, ◌==◌,
  nat_eq, list_eq, pair_eq, Str, bytes, Error, Outcome, ◌>>=◌, ok-injective, ok, err, panic, ℤ,
  ◌+ℤ◌, int_eq, wrap_i64,
}
use mangle_rs.Prelude.{pos, negsuc}
use mangle_rs.Common.Value.{Value, number, string, name, time}
use mangle_rs.Interpreter.Functions.Ints.{neg_ℤ, ◌-ℤ◌, ◌*ℤ◌, div_euclid, rem_euclid}
use mangle_rs.Interpreter.Functions.Given.{Floats}
use mangle_rs.Interpreter.Functions.Civil.{civil_from_epoch_secs}
use mangle_rs.Interpreter.Functions.Civil.RoundTrip.{civil_from_epoch_secs_bounds, rem_euclid_lt}
use mangle_rs.Interpreter.Functions.Parse.{format_time_with_precision}
use mangle_rs.Interpreter.Functions.Parse.Stamp.{parse_rfc3339_to_nanos-format_seconds}
use mangle_rs.Interpreter.Functions.Times.{
  unit_nanos, fn_time_trunc, time_component, fn_time_month, fn_time_day, fn_time_hour,
  fn_time_minute, fn_time_second, fn_time_format, fn_parse_rfc3339, number_part, unit_part,
  part_nanos, duration_parts,
}
use mangle_rs.Interpreter.Functions.{eval_function}

take_off : (t : ℤ) (d : ℕ) → 0 < d → t -ℤ pos (rem_euclid t d) ≡ div_euclid t d *ℤ pos d
unfolding rem_euclid div_euclid ◌-ℤ◌ ◌*ℤ◌ neg_ℤ
take_off (pos n) d h = parts (n / d * d) (n % d) (Nat.div-add-mod' n d)
  where
    parts : (q r : ℕ) → q + r ≡ n → pos n -ℤ pos r ≡ pos q
    parts q r e = ground arith
take_off (negsuc n) d h =
    let whole : suc (n / d * d + (d - 1)) ≡ suc (n / d) * d =
      omega (arith, Nat.suc-mul (n / d) d) in
    parts (n / d * d) (n % d) (Nat.div-add-mod' n d) (Nat.mod-lt n h)
    ∙ ap (λ k. neg_ℤ (pos k)) whole
  where
    parts :
        (q r : ℕ)
        → q + r ≡ n
        → r < d
        → negsuc n -ℤ pos (d - 1 - r) ≡ neg_ℤ (pos (suc (q + (d - 1))))
    parts q r e small = ground arith

unit_nanos-pos : (unit : Str) (d : ℕ) → unit_nanos unit ≡ ok d → 0 < d
unfolding unit_nanos
unit_nanos-pos unit d h = ground arith

pub eval_function-time_trunc :
    (c : Floats) (t : ℤ) (unit : Str) (d : ℕ)
    → unit_nanos unit ≡ ok d
    → eval_function c (bytes "fn:time:trunc") (time t ∷ name unit ∷ [])
      ≡ ok (time (wrap_i64 (div_euclid t d *ℤ pos d)))
unfolding eval_function fn_time_trunc
eval_function-time_trunc c t unit d h =
    ap (λ o. o >>= λ u. ok (time (wrap_i64 (t -ℤ pos (rem_euclid t u))))) h
    ∙ ap (λ z. ok (time (wrap_i64 z))) (take_off t d (unit_nanos-pos unit d h))

-- Of every time, the functions of its components give a month from 1 to 12, a day from 1 to 31, an hour
-- below 24, and a minute and a second below 60.
pub eval_function-time_bounds :
    (c : Floats) (t : ℤ)
    → (m d h i s : ℕ) × (eval_function c (bytes "fn:time:month") (time t ∷ [])
        ≡ ok (number (pos m)))
      × (eval_function c (bytes "fn:time:day") (time t ∷ []) ≡ ok (number (pos d)))
      × (eval_function c (bytes "fn:time:hour") (time t ∷ []) ≡ ok (number (pos h)))
      × (eval_function c (bytes "fn:time:minute") (time t ∷ []) ≡ ok (number (pos i)))
      × (eval_function c (bytes "fn:time:second") (time t ∷ []) ≡ ok (number (pos s)))
      × (1 ≤ m)
      × (m ≤ 12)
      × (1 ≤ d)
      × (d ≤ 31)
      × (h < 24)
      × (i < 60)
      × (s < 60)
unfolding eval_function fn_time_month fn_time_day fn_time_hour fn_time_minute fn_time_second
    time_component
eval_function-time_bounds c t =
    let secs = div_euclid t (10 ^ 9) in
    let (lm, hm, ld, hd) = civil_from_epoch_secs_bounds secs in
    let small = rem_euclid_lt secs 86400 (omega arith) in
    (
      (civil_from_epoch_secs secs).month,
      (civil_from_epoch_secs secs).day,
      rem_euclid secs 86400 / 3600,
      rem_euclid secs 86400 % 3600 / 60,
      rem_euclid secs 86400 % 60,
      refl,
      refl,
      refl,
      refl,
      refl,
      lm,
      hm,
      ld,
      hd,
      omega arith,
      omega arith,
      omega arith,
    )

second : unit_nanos (bytes "/second") ≡ ok (10 ^ 9)
unfolding unit_nanos
second = refl

-- For a time of the years 0 to 9999, formatting it to the second and parsing the text gives what
-- `fn:time:trunc` gives for seconds.
pub eval_function-parse-format :
    (c : Floats) (t : ℤ) (y : ℕ) (v : Value)
    → (civil_from_epoch_secs (div_euclid t (10 ^ 9))).year ≡ pos y
    → y < 10000
    → eval_function c (bytes "fn:time:format") (time t ∷ string (bytes "/second") ∷ []) ≡ ok v
    → eval_function c (bytes "fn:time:parse_rfc3339") (v ∷ [])
      ≡ eval_function c (bytes "fn:time:trunc") (time t ∷ name (bytes "/second") ∷ [])
unfolding eval_function fn_time_format format_time_with_precision fn_parse_rfc3339
eval_function-parse-format c t y v e hy h =
    let secs = div_euclid t (10 ^ 9) in
    ap (λ z. fn_parse_rfc3339 (z ∷ [])) (sym (ok-injective h))
    ∙ ap (λ o. o >>= λ nanos. ok (time nanos)) (parse_rfc3339_to_nanos-format_seconds secs y e hy)
    ∙ sym (eval_function-time_trunc c t (bytes "/second") (10 ^ 9) second)

number_part-length : (s : Str) → length (number_part s).0 + length (number_part s).1 ≡ length s
unfolding number_part
number_part-length [] = omega arith
number_part-length (ch ∷ s) = elim (Bool-cases ((leb 48 ch && leb ch 57) || ch == 46)) [
  | inl digit ↦ rw digit (omega (arith, number_part-length s))
  | inr other ↦ rw other (omega arith)
]

drop-shorter : (n : ℕ) (s : Str) → length (drop n s) ≤ length s
drop-shorter zero s = omega arith
drop-shorter (suc n) [] = omega arith
drop-shorter (suc n) (x ∷ s) = omega (arith, drop-shorter n s)

if_cong :
    {A : Type 0} (b : Bool) (x : A) {y z : A}
    → (b ≡ false → y ≡ z)
    → (if b then x else y) ≡ (if b then x else z)
if_cong true x h = refl
if_cong false x h = h refl

bind_cong :
    {A B : Type 0} (o : Outcome A) {f g : A → Outcome B} → ((a : A) → f a ≡ g a) → o >>= f ≡ o >>= g
bind_cong (ok a) h = h a
bind_cong (err e) h = refl
bind_cong panic h = refl

-- In the loop that parses a duration, the length of the text is enough fuel: more changes nothing.
pub duration_parts_enough :
    (c : Floats) (fuel more : ℕ) (total : ℤ) (rest : Str)
    → length rest ≤ fuel
    → fuel ≤ more
    → duration_parts c more total rest ≡ duration_parts c fuel total rest
unfolding duration_parts
duration_parts_enough c zero zero total rest h le = refl
duration_parts_enough c zero (suc more) total [] h le = refl
duration_parts_enough c zero (suc more) total (ch ∷ s) h le = absurd (omega arith)
duration_parts_enough c (suc fuel) zero total rest h le = absurd (omega arith)
duration_parts_enough c (suc fuel) (suc more) total [] h le = refl
duration_parts_enough c (suc fuel) (suc more) total (ch ∷ s) h le =
    let (num, tail) = number_part (ch ∷ s) in
    if_cong (length num == 0) (err Error.bad_argument) (λ some_digit.
      bind_cong (unit_part tail) (λ u. bind_cong (part_nanos c num u.0) (λ nanos.
        duration_parts_enough c fuel more (wrap_i64 (total +ℤ nanos)) (drop u.1 tail)
          (shorter u.1 some_digit) (omega arith))))
  where
    shorter :
        (n : ℕ)
        → (length (number_part (ch ∷ s)).0 == 0) ≡ false
        → length (drop n (number_part (ch ∷ s)).1) ≤ fuel
    shorter n some_digit =
        ground (arith, drop-shorter n (number_part (ch ∷ s)).1, number_part-length (ch ∷ s))
