-- ===== src/Common/Value/Equality.antt =====
-- `PartialEq for Value` of crates/mangle-common/src/lib.rs decides equality, and `Value` is a key.
use mangle_rs.Prelude.{
  ◌≡◌, refl, ap, ap₂, ◌↔◌, true, beq_ℤ_iff, list_beq_iff, nat_beq_iff, and-true, arith, Eq, nat_eq,
}
use mangle_rs.Common.Value.{
  CompoundKind, rank, Value, number, float, string, name, time, duration, compound, null, Values,
  nil, cons, beq_value, beq_values,
}

pub rank_injective : (k l : CompoundKind) → rank k ≡ rank l → k ≡ l
rank_injective k l h = ground arith

mutual
  unfolding beq_value beq_values

  beq_value→eq : (a b : Value) → beq_value a b ≡ true → a ≡ b
  beq_value→eq (number a) (number b) h = ap number ((beq_ℤ_iff a b).0 h)
  beq_value→eq (float a) (float b) h = ap float ((nat_beq_iff a b).0 h)
  beq_value→eq (string a) (string b) h = ap string ((list_beq_iff a b).0 h)
  beq_value→eq (name a) (name b) h = ap name ((list_beq_iff a b).0 h)
  beq_value→eq (time a) (time b) h = ap time ((beq_ℤ_iff a b).0 h)
  beq_value→eq (duration a) (duration b) h = ap duration ((beq_ℤ_iff a b).0 h)
  beq_value→eq (compound k a) (compound l b) h =
      let (p, q) = and-true _ _ h in
      ap₂ compound (rank_injective k l ((nat_beq_iff _ _).0 p)) (beq_values→eq a b q)
  beq_value→eq null null h = refl
  beq_value→eq _ _ h = cc

  beq_values→eq : (a b : Values) → beq_values a b ≡ true → a ≡ b
  beq_values→eq nil nil h = refl
  beq_values→eq (cons a xs) (cons b ys) h =
      let (p, q) = and-true _ _ h in ap₂ cons (beq_value→eq a b p) (beq_values→eq xs ys q)
  beq_values→eq _ _ h = cc

mutual
  unfolding beq_value beq_values

  beq_value_refl : (a : Value) → beq_value a a ≡ true
  beq_value_refl (number a) = (beq_ℤ_iff a a).1 refl
  beq_value_refl (float a) = (nat_beq_iff a a).1 refl
  beq_value_refl (string a) = (list_beq_iff a a).1 refl
  beq_value_refl (name a) = (list_beq_iff a a).1 refl
  beq_value_refl (time a) = (beq_ℤ_iff a a).1 refl
  beq_value_refl (duration a) = (beq_ℤ_iff a a).1 refl
  beq_value_refl (compound k a) = rw ((nat_beq_iff _ _).1 refl, beq_values_refl a)
  beq_value_refl null = refl

  beq_values_refl : (a : Values) → beq_values a a ≡ true
  beq_values_refl nil = refl
  beq_values_refl (cons a xs) = rw (beq_value_refl a, beq_values_refl xs)

-- Two values compare equal exactly when they are the same value.
pub beq_value_iff : (a b : Value) → (beq_value a b ≡ true) ↔ (a ≡ b)
beq_value_iff a b = (beq_value→eq a b, λ p. rw p (beq_value_refl b))

instance abbrev pub value_eq : Eq Value
value_eq = record { same = beq_value; same_iff = beq_value_iff }
