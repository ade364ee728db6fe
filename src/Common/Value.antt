-- ===== src/Common/Value.antt =====
-- crates/mangle-common/src/lib.rs, `CompoundKind` and `Value` with its `PartialEq` and `Ord`.
-- An i64 is a ℤ; an f64 is its 64-bit pattern, as `to_bits` gives it; a string is its UTF-8 bytes.
pub mod Equality
pub mod Order
use mangle_rs.Prelude.{
  ℕ, ◌-◌, ◌^◌, Ordering, compare, ℤ, pos, negsuc, compare_ℤ, beq_ℤ, Str, list_beq, nat_eq, nat_beq,
  ltb, Bool, true, false, ◌&&◌, List, [], ◌∷◌, if◌then◌else◌,
}

pub data CompoundKind : Type 0 where
  list pair map struct : CompoundKind

mutual
  pub data Value : Type 0 where
    number : ℤ → Value
    float : ℕ → Value
    string : Str → Value
    name : Str → Value
    time : ℤ → Value
    duration : ℤ → Value
    compound : CompoundKind → Values → Value
    null : Value

  -- the elements of a compound
  pub data Values : Type 0 where
    nil : Values
    cons : Value → Values → Values

abbrev pub to_list : Values → List Value
to_list nil = []
to_list (cons v vs) = v ∷ to_list vs

abbrev pub of_list : List Value → Values
of_list [] = nil
of_list (v ∷ vs) = cons v (of_list vs)

abbrev pub count : Values → ℕ
count nil = 0
count (cons v vs) = ℕ.suc (count vs)

-- the position of a kind in its declaration, which the derived `Ord` compares
abbrev pub rank : CompoundKind → ℕ
rank list = 0
rank pair = 1
rank map = 2
rank struct = 3

unfoldable mutual
  pub beq_value : Value → Value → Bool
  beq_value (number a) (number b) = beq_ℤ a b
  beq_value (float a) (float b) = nat_beq a b
  beq_value (string a) (string b) = list_beq a b
  beq_value (name a) (name b) = list_beq a b
  beq_value (time a) (time b) = beq_ℤ a b
  beq_value (duration a) (duration b) = beq_ℤ a b
  beq_value (compound ka a) (compound kb b) = nat_beq (rank ka) (rank kb) && beq_values a b
  beq_value null null = true
  beq_value _ _ = false

  pub beq_values : Values → Values → Bool
  beq_values nil nil = true
  beq_values (cons a as') (cons b bs) = beq_value a b && beq_values as' bs
  beq_values _ _ = false

-- `f64::total_cmp`: the order of the bit patterns read as sign and magnitude.
abbrev pub total_key : ℕ → ℤ
total_key b = if ltb b (2 ^ 63) then pos b else negsuc (b - 2 ^ 63)

unfoldable pub total_cmp : ℕ → ℕ → Ordering
total_cmp a b = compare_ℤ (total_key a) (total_key b)

-- `Ordering::then_with`
abbrev pub then_with : Ordering → Ordering → Ordering
then_with Ordering.lt o = Ordering.lt
then_with Ordering.eq o = o
then_with Ordering.gt o = Ordering.gt

-- The order of byte strings.
unfoldable pub cmp_str : Str → Str → Ordering
cmp_str [] [] = Ordering.eq
cmp_str [] (b ∷ bs) = Ordering.lt
cmp_str (a ∷ xs) [] = Ordering.gt
cmp_str (a ∷ xs) (b ∷ bs) = then_with (compare a b) (cmp_str xs bs)

-- `as f64` rounds an i64 to the nearest double: the language's conversion is the parameter `as_f64`.
module _ (as_f64 : ℤ → ℕ) where
  unfoldable mutual
    unfolding total_cmp

    pub cmp : Value → Value → Ordering
    cmp (number a) (number b) = compare_ℤ a b
    cmp (float a) (float b) = total_cmp a b
    cmp (number a) (float b) = total_cmp (as_f64 a) b
    cmp (float a) (number b) = total_cmp a (as_f64 b)
    cmp (string a) (string b) = cmp_str a b
    cmp (name a) (name b) = cmp_str a b
    cmp (time a) (time b) = compare_ℤ a b
    cmp (duration a) (duration b) = compare_ℤ a b
    cmp (duration a) (number b) = compare_ℤ a b
    cmp (number a) (duration b) = compare_ℤ a b
    cmp (time a) (number b) = compare_ℤ a b
    cmp (number a) (time b) = compare_ℤ a b
    cmp (compound ka a) (compound kb b) = then_with (compare (rank ka) (rank kb)) (cmp_values a b)
    cmp null null = Ordering.eq
    cmp (number _) _ = Ordering.lt
    cmp (float _) _ = Ordering.lt
    cmp _ (number _) = Ordering.gt
    cmp _ (float _) = Ordering.gt
    cmp (string _) _ = Ordering.lt
    cmp _ (string _) = Ordering.gt
    cmp (name _) _ = Ordering.lt
    cmp _ (name _) = Ordering.gt
    cmp (time _) _ = Ordering.lt
    cmp _ (time _) = Ordering.gt
    cmp (duration _) _ = Ordering.lt
    cmp _ (duration _) = Ordering.gt
    cmp (compound _ _) _ = Ordering.lt
    cmp _ (compound _ _) = Ordering.gt

    -- slices compare element by element
    pub cmp_values : Values → Values → Ordering
    cmp_values nil nil = Ordering.eq
    cmp_values nil (cons b bs) = Ordering.lt
    cmp_values (cons a xs) nil = Ordering.gt
    cmp_values (cons a xs) (cons b bs) = then_with (cmp a b) (cmp_values xs bs)
