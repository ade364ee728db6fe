-- ===== src/Interpreter/Negation.antt =====
-- A negated atom (crates/mangle-interpreter/src/lib.rs, `eval_cond`) against the facts of its relation.
use mangle_rs.Prelude.{
  ℕ, suc, ◌≡◌, refl, sym, ap, ◌∙◌, inl, inr, Bool, true, false, ◌&&◌, not, List, [], ◌∷◌, arith,
  nat_beq, nat_beq_iff, Bool-cases, length, ◌==◌, ==-ne, nat_eq, list_eq, pair_eq, Str, Outcome,
  >>=-eq-ok, ok-injective, ok, int_eq,
}
use mangle_rs.Common.Value.{Value}
use mangle_rs.Common.Value.Equality.{value_eq}
use mangle_rs.Interpreter.Cells.{Tuple}
use mangle_rs.Interpreter.Context.{Context, Env, Store}
use mangle_rs.Interpreter.Eval.{eval_operand, eval_operands, matches_args, none_matches, eval_cond}
use mangle_rs.Interpreter.MemStore.Insert.{known}
use mangle_rs.Ir.{Ir, resolve_name}
use mangle_rs.Ir.Physical.{Operand, Condition}

module _ (ir : Ir) (env : Env) where
  length-eval_operands :
      (args : List Operand) (vals : Tuple)
      → eval_operands ir args env ≡ ok vals
      → length vals ≡ length args
  unfolding eval_operands
  length-eval_operands [] vals h = ap length (sym (ok-injective h))
  length-eval_operands (a ∷ args) vals h =
      let (x, p, q) = >>=-eq-ok (eval_operand ir a env) _ h in
      let (xs, p', q') = >>=-eq-ok (eval_operands ir args env) _ q in
      ap length (sym (ok-injective q')) ∙ ap suc (length-eval_operands args xs p')

  matches_args-cons :
      (a : Operand) (args : List Operand) (x : Value) (t : Tuple) (v : Value) (vs : Tuple)
      → eval_operand ir a env ≡ ok v
      → matches_args ir t args env ≡ ok (t == vs)
      → matches_args ir (x ∷ t) (a ∷ args) env ≡ ok (x ∷ t == v ∷ vs)
  unfolding matches_args
  matches_args-cons a args x t v vs p ih = rw p (go (x == v))
    where
      go :
          (b : Bool)
          → elim b as (λ k. Outcome Bool) [ true ↦ matches_args ir t args env | false ↦ ok false ]
            ≡ ok (b && (t == vs))
      go true = ih
      go false = refl

  matches_args-eq :
      (args : List Operand) (t vals : Tuple)
      → eval_operands ir args env ≡ ok vals
      → length t ≡ length args
      → matches_args ir t args env ≡ ok (t == vals)
  unfolding eval_operands matches_args
  matches_args-eq [] [] vals h l = rw (← ok-injective h)
  matches_args-eq [] (x ∷ t) vals h l = ground arith
  matches_args-eq (a ∷ args) [] vals h l = ground arith
  matches_args-eq (a ∷ args) (x ∷ t) vals h l =
      let (v, p, q) = >>=-eq-ok (eval_operand ir a env) _ h in
      let (vs, p', q') = >>=-eq-ok (eval_operands ir args env) _ q in
      matches_args-cons a args x t v vs p (matches_args-eq args t vs p' (omega (arith, l)))
      ∙ ap (λ l. ok (x ∷ t == l)) (ok-injective q')

  none_matches-known :
      (args : List Operand) (vals : Tuple) (ts : List Tuple)
      → eval_operands ir args env ≡ ok vals
      → none_matches ir ts args env ≡ ok (not (known ts vals))
  unfolding none_matches
  none_matches-known args vals [] h = refl
  none_matches-known args vals (t ∷ ts) h = elim (Bool-cases (nat_beq (length t) (length args))) [
    | inl e ↦
        rw
          (
            none_matches,
            e,
            matches_args-eq args t vals h ((nat_beq_iff (length t) (length args)).0 e),
          )
          (elim (Bool-cases (t == vals)) [
            | inl same ↦ rw same
            | inr ne ↦ rw ne (none_matches-known args vals ts h)
          ])
    | inr e ↦
        rw
          (
            none_matches,
            e,
            ==-ne t vals (λ p. cc (
              e,
              (nat_beq_iff (length t) (length args)).1
                  (ap length p ∙ length-eval_operands args vals h),
            )),
          )
          (none_matches-known args vals ts h)
  ]

-- A negated atom holds exactly where no fact of the relation equals its arguments' values.
pub eval_cond-negation :
    (c : Context) {S : Type 0} ⦃i : Store S⦄ (s : S) (relation : ℕ) (args : List Operand)
    (env : Env) (rel_name : Str) (facts : List Tuple) (vals : Tuple)
    → resolve_name c.ir relation ≡ ok rel_name
    → i.scan s rel_name ≡ ok facts
    → eval_operands c.ir args env ≡ ok vals
    → eval_cond c s (Condition.negation relation args) env ≡ ok (not (known facts vals))
unfolding eval_cond
eval_cond-negation c s relation args env rel_name facts vals h1 h2 h3 =
    rw (h1, h2) (none_matches-known c.ir env args vals facts h3)
