-- ===== src/Interpreter/Functions/Given.antt =====
-- What the built-in functions take from the language: f64 on its bit patterns, writing and quoting,
-- `str::replacen` (`none` for all occurrences), and the clock.
use mangle_rs.Prelude.{ℕ, Bool, Option, nat_eq, list_eq, pair_eq, Str, Outcome, ℤ, int_eq}

pub record Floats : Type 0 where
  pub as_f64 : ℤ → ℕ
  pub f64_zero : ℕ
  pub f64_one : ℕ
  pub f64_add : ℕ → ℕ → ℕ
  pub f64_sub : ℕ → ℕ → ℕ
  pub f64_mul : ℕ → ℕ → ℕ
  pub f64_div : ℕ → ℕ → ℕ
  pub f64_neg : ℕ → ℕ
  pub f64_sqrt : ℕ → ℕ
  pub f64_is_zero : ℕ → Bool
  pub f64_parse : Str → Option ℕ
  pub f64_to_i64 : ℕ → ℤ
  pub f64_display : ℕ → Str
  pub debug_str : Str → Str
  pub replacen : Str → Str → Str → Option ℕ → Str
  pub now_nanos : Outcome ℤ
