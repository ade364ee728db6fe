-- ===== src/Interpreter/Functions/Civil.antt =====
-- crates/mangle-interpreter/src/lib.rs, `civil_from_epoch_secs`: the date of a time, and the day that
-- `parse_rfc3339_to_nanos` computes for a date. The casts of the first keep the number, since the
-- seconds come from an i64 of nanoseconds; the u32 of the second wrap.
pub mod RoundTrip
use mangle_rs.Prelude.{
  ℕ, ◌+◌, ◌-◌, ◌*◌, ◌/◌, ◌%◌, ◌^◌, ◌≤◌, ◌<◌, ◌≡◌, refl, arith, ltb, leb, if◌then◌else◌, nat_eq,
  list_eq, pair_eq, ℤ, pos_part, ◌+ℤ◌, leb_ℤ, int_eq,
}
use mangle_rs.Prelude.{pos, negsuc}
use mangle_rs.Interpreter.Functions.Ints.{neg_ℤ, ◌-ℤ◌, ◌*ℤ◌, ◌/ℤ◌, div_euclid}

pub record Civil : Type 0 where
  pub year : ℤ
  pub month : ℕ
  pub day : ℕ

-- the year of the era and the day of the year (from March) of a day of the era
unfoldable pub year_of_era : ℕ → ℕ
year_of_era doe = (doe - doe / 1460 + doe / 36524 - doe / 146096) / 365

unfoldable pub day_of_year : ℕ → ℕ → ℕ
day_of_year doe yoe = doe - (365 * yoe + yoe / 4 - yoe / 100)

unfoldable pub era_of : ℤ → ℤ
unfolding ◌-ℤ◌ ◌/ℤ◌
era_of z = (if leb_ℤ (pos 0) z then z else z -ℤ pos 146096) /ℤ pos 146097

unfoldable pub civil_from_days : ℤ → Civil
unfolding year_of_era day_of_year era_of ◌-ℤ◌ ◌*ℤ◌ ◌+ℤ◌
civil_from_days days =
    let z = days +ℤ pos 719468 in
    let era = era_of z in
    let doe = pos_part (z -ℤ era *ℤ pos 146097) in
    let yoe = year_of_era doe in
    let y = pos yoe +ℤ era *ℤ pos 400 in
    let doy = day_of_year doe yoe in
    let mp = (5 * doy + 2) / 153 in
    let d = doy - (153 * mp + 2) / 5 + 1 in
    let m = if ltb mp 10 then mp + 3 else mp - 9 in
    record { year = if leb m 2 then y +ℤ pos 1 else y; month = m; day = d }

unfoldable pub civil_from_epoch_secs : ℤ → Civil
unfolding civil_from_days div_euclid
civil_from_epoch_secs secs = civil_from_days (div_euclid secs 86400)

-- The parser's day of a date. On u32, `day - 1` is the sum with 2 ^ 32 - 1, without its carry.
unfoldable pub days_from_civil : ℤ → ℕ → ℕ → ℤ
unfolding ◌-ℤ◌ ◌*ℤ◌ ◌/ℤ◌ ◌+ℤ◌
days_from_civil year month day =
    let y = if leb month 2 then year -ℤ pos 1 else year in
    let era = (if leb_ℤ (pos 0) y then y else y -ℤ pos 399) /ℤ pos 400 in
    let yoe = pos_part (y -ℤ era *ℤ pos 400) in
    let m_adj = if ltb 2 month then month - 3 else month + 9 in
    let doy = ((153 * m_adj + 2) / 5 + day + (2 ^ 32 - 1)) % 2 ^ 32 in
    let doe = (yoe * 365 + yoe / 4 - yoe / 100 + doy) % 2 ^ 32 in
    era *ℤ pos 146097 +ℤ pos doe -ℤ pos 719468

leap : civil_from_epoch_secs (pos 951782400) ≡ record { year = pos 2000; month = 2; day = 29 }
unfolding civil_from_epoch_secs
leap = refl

before : civil_from_epoch_secs (negsuc 0) ≡ record { year = pos 1969; month = 12; day = 31 }
unfolding civil_from_epoch_secs
before = refl

back : days_from_civil (pos 1969) 12 31 ≡ negsuc 0
unfolding days_from_civil
back = refl

-- bounds of the year of an era and of the day in it
pub era_bounds :
    (doe : ℕ)
    → doe < 146097
    → (year_of_era doe < 400)
      × (365 * year_of_era doe + year_of_era doe / 4 - year_of_era doe / 100 ≤ doe)
      × (day_of_year doe (year_of_era doe) ≤ 365)
unfolding year_of_era day_of_year
era_bounds doe h = (omega arith, omega arith, omega arith)
