-- ===== src/Interpreter/Functions/Civil/RoundTrip.antt =====
-- The dates that `civil_from_epoch_secs` gives: their bounds, and the way back.
use mangle_rs.Prelude.{
  ℕ, ◌+◌, ◌-◌, ◌*◌, ◌/◌, ◌%◌, ◌^◌, ◌≤◌, ◌<◌, ◌≡◌, refl, sym, ap, ◌∙◌, ap₂, subst, Bool, true, false,
  arith, ltb, leb, if◌then◌else◌, nat_eq, list_eq, pair_eq, ℤ, pos_part, ◌+ℤ◌, leb_ℤ, int_eq,
}
use mangle_rs.Prelude.{pos, negsuc}
use mangle_rs.Interpreter.Functions.Ints.{neg_ℤ, ◌-ℤ◌, ◌*ℤ◌, ◌/ℤ◌, div_euclid, rem_euclid}
use mangle_rs.Interpreter.Functions.Civil.{
  Civil, year_of_era, day_of_year, era_of, civil_from_days, civil_from_epoch_secs, days_from_civil,
  era_bounds,
}

era_of_lem : (z : ℤ) → era_of z ≡ div_euclid z 146097
unfolding era_of div_euclid ◌-ℤ◌ ◌/ℤ◌ neg_ℤ
era_of_lem (pos n) = ground arith
era_of_lem (negsuc n) = ground arith

day_of_era_lem : (z : ℤ) → pos_part (z -ℤ div_euclid z 146097 *ℤ pos 146097) ≡ rem_euclid z 146097
unfolding div_euclid rem_euclid ◌-ℤ◌ ◌*ℤ◌ neg_ℤ
day_of_era_lem (pos n) = ground arith
day_of_era_lem (negsuc n) = ground arith

pub rem_euclid_lt : (z : ℤ) (d : ℕ) → 0 < d → rem_euclid z d < d
unfolding rem_euclid
rem_euclid_lt (pos n) d h = ground arith
rem_euclid_lt (negsuc n) d h = ground arith

-- the year before March was put first
abbrev march_year : ℤ → ℕ → ℤ
march_year era yoe = pos yoe +ℤ era *ℤ pos 400

-- the era of a year, as the parser computes it
abbrev era_of_year : ℤ → ℤ
era_of_year y = (if leb_ℤ (pos 0) y then y else y -ℤ pos 399) /ℤ pos 400

era_of_year_lem : (era : ℤ) (yoe : ℕ) → yoe < 400 → era_of_year (march_year era yoe) ≡ era
unfolding ◌+ℤ◌ ◌-ℤ◌ ◌*ℤ◌ ◌/ℤ◌ neg_ℤ
era_of_year_lem (pos e) yoe h = ground arith
era_of_year_lem (negsuc e) yoe h = ground arith

year_of_era_lem :
    (era : ℤ) (yoe : ℕ) → yoe < 400 → pos_part (march_year era yoe -ℤ era *ℤ pos 400) ≡ yoe
unfolding ◌+ℤ◌ ◌-ℤ◌ ◌*ℤ◌ neg_ℤ
year_of_era_lem (pos e) yoe h = ground arith
year_of_era_lem (negsuc e) yoe h = ground arith

year_back : (y : ℤ) → (y +ℤ pos 1) -ℤ pos 1 ≡ y
unfolding ◌+ℤ◌ ◌-ℤ◌
year_back (pos n) = ground arith
year_back (negsuc n) = ground arith

days_back :
    (days : ℤ)
    → div_euclid (days +ℤ pos 719468) 146097 *ℤ pos 146097
        +ℤ pos (rem_euclid (days +ℤ pos 719468) 146097)
        -ℤ pos 719468
      ≡ days
unfolding div_euclid rem_euclid ◌+ℤ◌ ◌-ℤ◌ ◌*ℤ◌ neg_ℤ
days_back (pos n) = ground arith
days_back (negsuc n) = ground arith

month_bounds :
    (doy : ℕ)
    → doy ≤ 365
    → let mp = (5 * doy + 2) / 153 in
      (mp ≤ 11) × ((153 * mp + 2) / 5 ≤ doy) × (doy - (153 * mp + 2) / 5 ≤ 30)
month_bounds doy h = (omega arith, omega arith, omega arith)

-- the date of a day of a year of an era
abbrev date_of : ℤ → ℕ → ℕ → Civil
date_of era yoe doy =
    let mp = (5 * doy + 2) / 153 in
    let m = if ltb mp 10 then mp + 3 else mp - 9 in
    record {
      year = if leb m 2 then march_year era yoe +ℤ pos 1 else march_year era yoe;
      month = m;
      day = doy - (153 * mp + 2) / 5 + 1;
    }

civil_from_days_lem :
    (days : ℤ)
    → let z = days +ℤ pos 719468 in
      let doe = rem_euclid z 146097 in
      civil_from_days days
      ≡ date_of (div_euclid z 146097) (year_of_era doe) (day_of_year doe (year_of_era doe))
unfolding civil_from_days
civil_from_days_lem days =
    let z = days +ℤ pos 719468 in
    ap
      (λ era.
        let doe = pos_part (z -ℤ era *ℤ pos 146097) in
        date_of era (year_of_era doe) (day_of_year doe (year_of_era doe)))
      (era_of_lem z)
    ∙ ap
        (λ doe. date_of (div_euclid z 146097) (year_of_era doe) (day_of_year doe (year_of_era doe)))
        (day_of_era_lem z)

date_of-bounds :
    (era : ℤ) (yoe doy : ℕ)
    → doy ≤ 365
    → let c = date_of era yoe doy in (1 ≤ c.month) × (c.month ≤ 12) × (1 ≤ c.day) × (c.day ≤ 31)
date_of-bounds era yoe doy h = let (a, b, c) = month_bounds doy h in ground (arith, a, b, c)

-- the day of an era and a year of it
abbrev days_of : ℤ → ℕ → ℕ → ℤ
days_of era yoe doy =
    era *ℤ pos 146097 +ℤ pos ((yoe * 365 + yoe / 4 - yoe / 100 + doy) % 2 ^ 32) -ℤ pos 719468

-- the parser's computation from the year before March was put first
abbrev days_from_march : ℤ → ℕ → ℕ → ℤ
days_from_march y m_adj day =
    let era = era_of_year y in
    days_of era (pos_part (y -ℤ era *ℤ pos 400))
      (((153 * m_adj + 2) / 5 + day + (2 ^ 32 - 1)) % 2 ^ 32)

days_from_civil-march :
    (year : ℤ) (month day : ℕ)
    → days_from_civil year month day
      ≡ days_from_march
          (if leb month 2 then year -ℤ pos 1 else year)
          (if ltb 2 month then month - 3 else month + 9)
          day
unfolding days_from_civil
days_from_civil-march year month day = refl

days_from_march-date_of :
    (era : ℤ) (yoe doy : ℕ)
    → yoe < 400
    → doy ≤ 365
    → let mp = (5 * doy + 2) / 153 in
      days_from_march (march_year era yoe) mp (doy - (153 * mp + 2) / 5 + 1) ≡ days_of era yoe doy
days_from_march-date_of era yoe doy hy hd =
    let mp = (5 * doy + 2) / 153 in
    let day : ((153 * mp + 2) / 5 + (doy - (153 * mp + 2) / 5 + 1) + (2 ^ 32 - 1)) % 2 ^ 32 ≡ doy =
      omega (arith, (month_bounds doy hd).1) in
    ap
      (λ e.
        days_of e (pos_part (march_year era yoe -ℤ e *ℤ pos 400))
          (((153 * mp + 2) / 5 + (doy - (153 * mp + 2) / 5 + 1) + (2 ^ 32 - 1)) % 2 ^ 32))
      (era_of_year_lem era yoe hy)
    ∙ ap₂ (days_of era) (year_of_era_lem era yoe hy) day

january_back :
    (b : Bool) (y : ℤ)
    → (if b then (if b then y +ℤ pos 1 else y) -ℤ pos 1 else (if b then y +ℤ pos 1 else y)) ≡ y
january_back true y = year_back y
january_back false y = refl

month_back :
    (mp : ℕ)
    → mp ≤ 11
    → let m = if ltb mp 10 then mp + 3 else mp - 9 in (if ltb 2 m then m - 3 else m + 9) ≡ mp
month_back mp h = ground arith

days_from_civil-date_of :
    (era : ℤ) (yoe doy : ℕ)
    → yoe < 400
    → doy ≤ 365
    → let c = date_of era yoe doy in days_from_civil c.year c.month c.day ≡ days_of era yoe doy
days_from_civil-date_of era yoe doy hy hd =
    let c = date_of era yoe doy in
    let mp = (5 * doy + 2) / 153 in
    let high = (month_bounds doy hd).0 in
    days_from_civil-march c.year c.month c.day
    ∙ ap₂ (λ y m. days_from_march y m c.day) (january_back (leb c.month 2) (march_year era yoe))
        (month_back mp high)
    ∙ days_from_march-date_of era yoe doy hy hd

-- The month of every time is one of 1 to 12, and its day one of 1 to 31.
pub civil_from_epoch_secs_bounds :
    (secs : ℤ)
    → let c = civil_from_epoch_secs secs in
      (1 ≤ c.month) × (c.month ≤ 12) × (1 ≤ c.day) × (c.day ≤ 31)
unfolding civil_from_epoch_secs
civil_from_epoch_secs_bounds secs =
    let z = div_euclid secs 86400 +ℤ pos 719468 in
    let doe = rem_euclid z 146097 in
    let (_, _, low) = era_bounds doe (rem_euclid_lt z 146097 (omega arith)) in
    subst (λ c. (1 ≤ c.month) × (c.month ≤ 12) × (1 ≤ c.day) × (c.day ≤ 31))
      (sym (civil_from_days_lem (div_euclid secs 86400)))
      (date_of-bounds (div_euclid z 146097) (year_of_era doe) (day_of_year doe (year_of_era doe))
        low)

days_of-day_of_year :
    (era : ℤ) (doe : ℕ)
    → doe < 146097
    → days_of era (year_of_era doe) (day_of_year doe (year_of_era doe))
      ≡ era *ℤ pos 146097 +ℤ pos doe -ℤ pos 719468
unfolding day_of_year
days_of-day_of_year era doe h =
    let (_, low, _) = era_bounds doe h in
    ap (λ n. era *ℤ pos 146097 +ℤ pos n -ℤ pos 719468) (omega arith)

-- From the date that `civil_from_epoch_secs` gives to a time, the parser computes the day of that time
-- again, for every time before and after 1970.
pub days_from_civil-civil_from_epoch_secs :
    (secs : ℤ)
    → let c = civil_from_epoch_secs secs in
      days_from_civil c.year c.month c.day ≡ div_euclid secs 86400
unfolding civil_from_epoch_secs
days_from_civil-civil_from_epoch_secs secs =
    let days = div_euclid secs 86400 in
    let z = days +ℤ pos 719468 in
    let doe = rem_euclid z 146097 in
    let small = rem_euclid_lt z 146097 (omega arith) in
    let (early, _, low) = era_bounds doe small in
    ap (λ c. days_from_civil c.year c.month c.day) (civil_from_days_lem days)
    ∙ days_from_civil-date_of (div_euclid z 146097) (year_of_era doe)
        (day_of_year doe (year_of_era doe)) early low
    ∙ days_of-day_of_year (div_euclid z 146097) doe small
    ∙ days_back days
