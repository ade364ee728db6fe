-- ===== src/Interpreter/Functions/Numbers.antt =====
-- crates/mangle-interpreter/src/lib.rs, `eval_function`: arithmetic on integers and floats, and the
-- functions of strings. Integers wrap, as in a release build; i64::MIN / -1 panics in every build.
use mangle_rs.Prelude.{
  ℕ, ◌^◌, none, some, List, [], ◌∷◌, ◌++◌, if◌then◌else◌, nat_eq, list_eq, pair_eq, Str, Error,
  Outcome, ◌>>=◌, ok, err, panic, ℤ, beq_ℤ, int_eq, wrap_i64,
}
use mangle_rs.Prelude.{pos, negsuc}
use mangle_rs.Common.Value.{Value, number, float, string, name}
use mangle_rs.Interpreter.Aggregates.{add_number, value_as_float}
use mangle_rs.Interpreter.Functions.Ints.{neg_ℤ, ◌-ℤ◌, ◌*ℤ◌, ◌/ℤ◌}
use mangle_rs.Interpreter.Functions.Given.{Floats}
use mangle_rs.Interpreter.Functions.Decimal.{signed_decimal}
use mangle_rs.Interpreter.Functions.Display.{value_to_string}

-- the loop over the arguments
unfoldable pub fold_args {ℓ} : {A : Type ℓ} → (A → Value → Outcome A) → A → List Value → Outcome A
fold_args f acc [] = ok acc
fold_args f acc (v ∷ vals) = f acc v >>= λ acc'. fold_args f acc' vals

unfoldable pub to_number : Outcome ℤ → Outcome Value
to_number r = r >>= λ n. ok (number n)

unfoldable pub to_float : Outcome ℕ → Outcome Value
to_float r = r >>= λ f. ok (float f)

unfoldable pub as_number : Value → Outcome ℤ
as_number (number n) = ok n
as_number _ = err Error.bad_argument

unfoldable pub fn_plus : List Value → Outcome Value
unfolding fold_args add_number to_number
fn_plus vals = to_number (fold_args add_number (pos 0) vals)

unfoldable pub sub_number : ℤ → Value → Outcome ℤ
unfolding ◌-ℤ◌ wrap_i64
sub_number acc (number n) = ok (wrap_i64 (acc -ℤ n))
sub_number acc _ = err Error.bad_argument

unfoldable pub fn_minus : List Value → Outcome Value
unfolding as_number neg_ℤ wrap_i64 fold_args sub_number to_number
fn_minus [] = err Error.bad_argument
fn_minus (v ∷ []) = as_number v >>= λ first. ok (number (wrap_i64 (neg_ℤ first)))
fn_minus (v ∷ vals) = as_number v >>= λ first. to_number (fold_args sub_number first vals)

unfoldable pub mult_number : ℤ → Value → Outcome ℤ
unfolding ◌*ℤ◌ wrap_i64
mult_number acc (number n) = ok (wrap_i64 (acc *ℤ n))
mult_number acc _ = err Error.bad_argument

unfoldable pub fn_mult : List Value → Outcome Value
unfolding fold_args mult_number to_number
fn_mult vals = to_number (fold_args mult_number (pos 1) vals)

-- `/` on i64, which panics where the quotient is no i64
unfoldable pub div_i64 : ℤ → ℤ → Outcome ℤ
unfolding ◌/ℤ◌
div_i64 a b = if beq_ℤ (a /ℤ b) (pos (2 ^ 63)) then panic else ok (a /ℤ b)

-- the loop, which a quotient of 0 ends
unfoldable pub div_all : ℤ → List Value → Outcome Value
unfolding div_i64
div_all acc [] = ok (number acc)
div_all acc (number n ∷ vals) =
    if beq_ℤ n (pos 0)
    then err Error.bad_argument
    else div_i64 acc n >>= λ result.
        if beq_ℤ result (pos 0) then ok (number (pos 0)) else div_all result vals
div_all acc (_ ∷ vals) = err Error.bad_argument

unfoldable pub fn_div : List Value → Outcome Value
unfolding as_number ◌/ℤ◌ div_all
fn_div [] = err Error.bad_argument
fn_div (v ∷ []) = as_number v >>= λ first.
    if beq_ℤ first (pos 0) then err Error.bad_argument else ok (number (pos 1 /ℤ first))
fn_div (v ∷ vals) = as_number v >>= λ first. div_all first vals

module _ (c : Floats) where
  unfoldable pub float_step : (ℕ → ℕ → ℕ) → ℕ → Value → Outcome ℕ
  unfolding value_as_float
  float_step op acc v = value_as_float c.as_f64 v >>= λ f. ok (op acc f)

  unfoldable pub fn_float_plus : List Value → Outcome Value
  unfolding fold_args float_step to_float
  fn_float_plus vals = to_float (fold_args (float_step c.f64_add) c.f64_zero vals)

  unfoldable pub fn_float_minus : List Value → Outcome Value
  unfolding value_as_float fold_args float_step to_float
  fn_float_minus [] = err Error.bad_argument
  fn_float_minus (v ∷ []) = value_as_float c.as_f64 v >>= λ first. ok (float (c.f64_neg first))
  fn_float_minus (v ∷ vals) =
      value_as_float c.as_f64 v >>= λ first. to_float (fold_args (float_step c.f64_sub) first vals)

  unfoldable pub fn_float_mult : List Value → Outcome Value
  unfolding fold_args float_step to_float
  fn_float_mult vals = to_float (fold_args (float_step c.f64_mul) c.f64_one vals)

  unfoldable pub float_div_step : ℕ → Value → Outcome ℕ
  unfolding value_as_float
  float_div_step acc v = value_as_float c.as_f64 v >>= λ d.
      if c.f64_is_zero d then err Error.bad_argument else ok (c.f64_div acc d)

  unfoldable pub fn_float_div : List Value → Outcome Value
  unfolding value_as_float fold_args float_div_step to_float
  fn_float_div [] = err Error.bad_argument
  fn_float_div (v ∷ []) = value_as_float c.as_f64 v >>= λ first.
      if c.f64_is_zero first then err Error.bad_argument else ok (float (c.f64_div c.f64_one first))
  fn_float_div (v ∷ vals) =
      value_as_float c.as_f64 v >>= λ first. to_float (fold_args float_div_step first vals)

  unfoldable pub fn_sqrt : List Value → Outcome Value
  unfolding value_as_float
  fn_sqrt (v ∷ []) = value_as_float c.as_f64 v >>= λ f. ok (float (c.f64_sqrt f))
  fn_sqrt _ = err Error.bad_argument

  unfoldable pub concat_strings : List Value → Str
  unfolding value_to_string
  concat_strings [] = []
  concat_strings (v ∷ vals) = value_to_string c.f64_display c.debug_str v ++ concat_strings vals

  unfoldable pub fn_string_replace : List Value → Outcome Value
  fn_string_replace (string s ∷ string old ∷ string new ∷ number (pos n) ∷ []) =
      ok (string (c.replacen s old new (some n)))
  fn_string_replace (string s ∷ string old ∷ string new ∷ number (negsuc n) ∷ []) =
      ok (string (c.replacen s old new none))
  fn_string_replace _ = err Error.bad_argument

  unfoldable pub fn_float64_to_string : List Value → Outcome Value
  fn_float64_to_string (float f ∷ []) = ok (string (c.f64_display f))
  fn_float64_to_string _ = err Error.bad_argument

unfoldable pub fn_number_to_string : List Value → Outcome Value
unfolding signed_decimal
fn_number_to_string (number n ∷ []) = ok (string (signed_decimal n))
fn_number_to_string _ = err Error.bad_argument

unfoldable pub fn_name_to_string : List Value → Outcome Value
fn_name_to_string (name s ∷ []) = ok (string s)
fn_name_to_string _ = err Error.bad_argument
