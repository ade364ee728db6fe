-- ===== src/Interpreter/Functions/Decimal.antt =====
-- Numbers as decimal text: what `format!` writes and what `parse` reads (crates/mangle-interpreter and
-- crates/mangle-common, src/lib.rs of both). Twenty digits are more than any 64-bit number has.
use mangle_rs.Prelude.{
  ℕ, zero, suc, ◌+◌, ◌-◌, ◌*◌, ◌/◌, ◌%◌, ◌^◌, ◌&&◌, Option, none, some, [], ◌∷◌, ◌++◌, ltb, leb,
  if◌then◌else◌, length, ◌==◌, nat_eq, list_eq, pair_eq, Str, ℤ, int_eq,
}
use mangle_rs.Prelude.{pos, negsuc}
use mangle_rs.Interpreter.Functions.Ints.{neg_ℤ}

unfoldable pub digits : ℕ → ℕ → Str
digits zero n = []
digits (suc fuel) n =
    let front = digits fuel (n / 10) in
    if ltb n 10 then (48 + n) ∷ [] else front ++ (48 + n % 10) ∷ []

unfoldable pub decimal : ℕ → Str
unfolding digits
decimal n = digits 20 n

unfoldable pub zeros : ℕ → Str
zeros zero = []
zeros (suc n) = 48 ∷ zeros n

-- `{n:0w}`
unfoldable pub pad : ℕ → ℕ → Str
unfolding decimal zeros
pad w n = let s = decimal n in zeros (w - length s) ++ s

-- `{n}` of a signed number
unfoldable pub signed_decimal : ℤ → Str
unfolding decimal
signed_decimal (pos n) = decimal n
signed_decimal (negsuc n) = 45 ∷ decimal (suc n)

-- `{n:0w}` of a signed number: the sign counts
unfoldable pub signed_pad : ℕ → ℤ → Str
unfolding pad
signed_pad w (pos n) = pad w n
signed_pad w (negsuc n) = 45 ∷ pad (w - 1) (suc n)

-- `trim_end_matches('0')`
unfoldable pub trim_zeros : Str → Str
trim_zeros [] = []
trim_zeros (c ∷ s) = elim (trim_zeros s) [
  | [] ↦ if c == 48 then [] else c ∷ []
  | d ∷ rest ↦ c ∷ d ∷ rest
]

-- the number that digits continue
unfoldable pub parse_digits : ℕ → Str → Option ℕ
parse_digits acc [] = some acc
parse_digits acc (c ∷ s) =
    let more = parse_digits (10 * acc + (c - 48)) s in if leb 48 c && leb c 57 then more else none

unfoldable pub parse_number : Str → Option ℕ
unfolding parse_digits
parse_number [] = none
parse_number (c ∷ s) = parse_digits 0 (c ∷ s)

unfoldable pub below : ℕ → Option ℕ → Option ℕ
below limit none = none
below limit (some n) = if ltb n limit then some n else none

-- `parse::<u32>`, which takes a plus sign
unfoldable pub parse_u32 : Str → Option ℕ
unfolding parse_number below
parse_u32 [] = none
parse_u32 (c ∷ s) =
    if c == 43 then below (2 ^ 32) (parse_number s) else below (2 ^ 32) (parse_number (c ∷ s))

unfoldable pub as_pos : Option ℕ → Option ℤ
as_pos none = none
as_pos (some n) = some (pos n)

unfoldable pub as_neg : Option ℕ → Option ℤ
unfolding neg_ℤ
as_neg none = none
as_neg (some n) = some (neg_ℤ (pos n))

-- `parse::<i64>`
unfoldable pub parse_i64 : Str → Option ℤ
unfolding parse_number below as_pos as_neg
parse_i64 [] = none
parse_i64 (c ∷ s) =
    if c == 43
    then as_pos (below (2 ^ 63) (parse_number s))
    else if c == 45
    then as_neg (below (2 ^ 63 + 1) (parse_number s))
    else as_pos (below (2 ^ 63) (parse_number (c ∷ s)))
