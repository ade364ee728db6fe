-- ===== src/Interpreter/Functions/Parse/Fields.antt =====
-- Fields of a fixed number of digits: what `format!` writes there, `parse` reads back.
use mangle_rs.Prelude.{
  ℕ, suc, ◌+◌, ◌-◌, ◌/◌, ◌%◌, ◌≤◌, ◌<◌, ◌≡◌, refl, ap, ◌∙◌, ap₂, inl, inr, true, ◌&&◌, not, some,
  [], ◌∷◌, ◌++◌, arith, ltb, leb, ltb→lt, lt→ltb, Bool-cases, length, nat_eq, list_eq, pair_eq, Str,
  int_eq,
}
use mangle_rs.Prelude.{pos}
use mangle_rs.Interpreter.Functions.Decimal.{
  digits, decimal, zeros, pad, parse_digits, parse_number, below, as_pos, parse_u32, parse_i64,
}

-- the two digits of a number below 100
abbrev pub two : ℕ → Str
two n = (48 + n / 10) ∷ (48 + n % 10) ∷ []

-- the four digits of a number below 10000
abbrev pub four : ℕ → Str
four n = (48 + n / 1000) ∷ (48 + n / 100 % 10) ∷ (48 + n / 10 % 10) ∷ (48 + n % 10) ∷ []

digits-one : (f n : ℕ) → n < 10 → digits (suc f) n ≡ (48 + n) ∷ []
unfolding digits
digits-one f n h = rw (lt→ltb n 10 h) refl

digits-more : (f n : ℕ) → 10 ≤ n → digits (suc f) n ≡ digits f (n / 10) ++ (48 + n % 10) ∷ []
unfolding digits
digits-more f n h = ground arith

-- a list of digits that is equal digit by digit
abbrev fill : ℕ → Str → Str
fill w s = zeros (w - length s) ++ s

pad_lem : (w n : ℕ) (s : Str) → decimal n ≡ s → pad w n ≡ fill w s
unfolding pad
pad_lem w n s e = ap (λ z. zeros (w - length z) ++ z) e

decimal_below_10 : (n : ℕ) → n < 10 → decimal n ≡ (48 + n) ∷ []
unfolding decimal
decimal_below_10 n h = digits-one 19 n h

digits_below_100 :
    (f n : ℕ) → 10 ≤ n → n < 100 → digits (suc (suc f)) n ≡ (48 + n / 10) ∷ (48 + n % 10) ∷ []
digits_below_100 f n l h =
    digits-more (suc f) n l
    ∙ ap (λ s. s ++ (48 + n % 10) ∷ []) (digits-one f (n / 10) (omega arith))

pub pad-two : (n : ℕ) → n < 100 → pad 2 n ≡ two n
unfolding zeros decimal
pad-two n h = elim (Bool-cases (ltb n 10)) [
  | inl low ↦
      pad_lem 2 n ((48 + n) ∷ []) (decimal_below_10 n (ltb→lt n 10 low))
      ∙ same2 (omega (arith, ltb→lt n 10 low)) (omega (arith, ltb→lt n 10 low))
  | inr high ↦ pad_lem 2 n (two n) (digits_below_100 18 n (ground arith) h)
]
  where
    same2 : {a b c d : ℕ} → a ≡ c → b ≡ d → a ∷ b ∷ [] ≡ c ∷ d ∷ []
    same2 p q = ap₂ (λ x y. x ∷ y ∷ []) p q

digits_below_1000 :
    (f n : ℕ)
    → 100 ≤ n
    → n < 1000
    → digits (suc (suc (suc f))) n ≡ (48 + n / 100) ∷ (48 + n / 10 % 10) ∷ (48 + n % 10) ∷ []
digits_below_1000 f n l h =
    digits-more (suc (suc f)) n (omega arith)
    ∙ ap (λ s. s ++ (48 + n % 10) ∷ []) (digits_below_100 f (n / 10) (omega arith) (omega arith))
    ∙ ap (λ a. (48 + a) ∷ (48 + n / 10 % 10) ∷ (48 + n % 10) ∷ []) hundreds
  where
    hundreds : n / 10 / 10 ≡ n / 100
    hundreds = omega arith

digits_below_10000 : (f n : ℕ) → 1000 ≤ n → n < 10000 → digits (suc (suc (suc (suc f)))) n ≡ four n
digits_below_10000 f n l h =
    digits-more (suc (suc (suc f))) n (omega arith)
    ∙ ap (λ s. s ++ (48 + n % 10) ∷ []) (digits_below_1000 f (n / 10) (omega arith) (omega arith))
    ∙ ap₂ (λ a b. (48 + a) ∷ (48 + b) ∷ (48 + n / 10 % 10) ∷ (48 + n % 10) ∷ []) thousands hundreds
  where
    thousands : n / 10 / 100 ≡ n / 1000
    thousands = omega arith

    hundreds : n / 10 / 10 % 10 ≡ n / 100 % 10
    hundreds = omega arith

same4 :
    {a b c d a' b' c' d' : ℕ}
    → a ≡ a'
    → b ≡ b'
    → c ≡ c'
    → d ≡ d'
    → a ∷ b ∷ c ∷ d ∷ [] ≡ a' ∷ b' ∷ c' ∷ d' ∷ []
same4 p q r s = ap₂ (λ x y. x ∷ y) p (ap₂ (λ x y. x ∷ y) q (ap₂ (λ x y. x ∷ y ∷ []) r s))

pub pad-four : (n : ℕ) → n < 10000 → pad 4 n ≡ four n
unfolding zeros decimal
pad-four n h = elim (Bool-cases (ltb n 10)) [
  | inl one ↦
      let low = ltb→lt n 10 one in
      pad_lem 4 n ((48 + n) ∷ []) (decimal_below_10 n low)
      ∙ same4 (omega arith) (omega arith) (omega arith) (omega arith)
  | inr more ↦ elim (Bool-cases (ltb n 100)) [
    | inl ten ↦
        let low = ltb→lt n 100 ten in
        pad_lem 4 n (two n) (digits_below_100 18 n (ground arith) low)
        ∙ same4 (omega arith) (omega arith) (omega arith) (omega arith)
    | inr more' ↦ elim (Bool-cases (ltb n 1000)) [
      | inl hundred ↦
          pad_lem 4 n ((48 + n / 100) ∷ (48 + n / 10 % 10) ∷ (48 + n % 10) ∷ [])
            (digits_below_1000 17 n (ground arith) (ltb→lt n 1000 hundred))
          ∙ same4 (omega (arith, ltb→lt n 1000 hundred)) (omega (arith, ltb→lt n 1000 hundred)) refl
              refl
      | inr thousand ↦ pad_lem 4 n (four n) (digits_below_10000 16 n (ground arith) h)
    ]
  ]
]

pub parse_u32-two : (n : ℕ) → n < 100 → parse_u32 (two n) ≡ some n
unfolding parse_u32 parse_number parse_digits below
parse_u32-two n h = ground arith

pub parse_i64-four : (n : ℕ) → n < 10000 → parse_i64 (four n) ≡ some (pos n)
unfolding parse_i64 parse_number parse_digits below as_pos
parse_i64-four n h = ground arith

-- a digit is no byte inside a character
pub digit_byte : (n : ℕ) → n < 10 → not (leb 128 (48 + n) && leb (48 + n) 191) ≡ true
digit_byte n h = ground arith
