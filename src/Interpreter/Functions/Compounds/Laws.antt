-- ===== src/Interpreter/Functions/Compounds/Laws.antt =====
-- How the functions of lists and maps fit together.
use mangle_rs.Prelude.{
  ℕ, ◌+◌, ◌≡◌, refl, sym, ap, ◌∙◌, ap₂, subst, some, List, [], ◌∷◌, ◌++◌, arith, if◌then◌else◌,
  length, get_elem?, length-append, get_elem?-append, ◌==◌, nat_eq, list_eq, pair_eq, bytes, Error,
  Outcome, ok_or, ok-injective, ok, int_eq,
}
use mangle_rs.Prelude.{pos}
use mangle_rs.Prelude.Assoc.{Assoc, lookup}
use mangle_rs.Common.Value
use mangle_rs.Common.Value.{Value, Values, nil, cons, number, compound, to_list, of_list}
use mangle_rs.Common.Value.Equality.{value_eq}
use mangle_rs.Interpreter.Text.{find_field}
use mangle_rs.Interpreter.Functions.Given.{Floats}
use mangle_rs.Interpreter.Functions.Compounds.{
  pair_keys, pair_values, fn_get, fn_map_keys, fn_map_values, fn_list_append, fn_len, fn_list_get,
}
use mangle_rs.Interpreter.Functions.{eval_function}

to_list-of_list : (vs : List Value) → to_list (of_list vs) ≡ vs
to_list-of_list [] = refl
to_list-of_list (v ∷ vs) = ap (λ l. v ∷ l) (to_list-of_list vs)

-- the parts of a result
abbrev elems_of : Outcome Value → Values
elems_of (ok (compound kind elems)) = elems
elems_of _ = nil

abbrev length_of : Outcome Value → ℕ
length_of (ok (number (pos n))) = n
length_of _ = 0

-- the entries of two lists side by side
pub zip : List Value → List Value → Assoc Value Value
zip (k ∷ ks) (v ∷ vs) = (k, v) ∷ zip ks vs
zip _ _ = []

find_field-zip :
    (elems : List Value) (key : Value)
    → find_field elems key ≡ lookup key (zip (pair_keys elems) (pair_values elems))
unfolding find_field pair_keys pair_values zip
find_field-zip [] key = refl
find_field-zip (k ∷ []) key = refl
find_field-zip (k ∷ v ∷ rest) key =
    ap (λ o. if k == key then some v else o) (find_field-zip rest key)

-- `fn:map:get` answers what `fn:map:keys` and `fn:map:values` show side by side: the value beside the
-- first key that equals the one asked for, or an error if no key does.
pub eval_function-map_get :
    (c : Floats) (m key : Value) (ks vs : Values)
    → eval_function c (bytes "fn:map:keys") (m ∷ []) ≡ ok (compound Value.list ks)
    → eval_function c (bytes "fn:map:values") (m ∷ []) ≡ ok (compound Value.list vs)
    → eval_function c (bytes "fn:map:get") (m ∷ key ∷ [])
      ≡ ok_or (lookup key (zip (to_list ks) (to_list vs))) Error.bad_argument
unfolding eval_function fn_get fn_map_keys fn_map_values
eval_function-map_get c (compound kind elems) key ks vs hk hv =
    let keys : pair_keys (to_list elems) ≡ to_list ks =
      sym (to_list-of_list (pair_keys (to_list elems))) ∙ ap (λ o. to_list (elems_of o)) hk in
    let values : pair_values (to_list elems) ≡ to_list vs =
      sym (to_list-of_list (pair_values (to_list elems))) ∙ ap (λ o. to_list (elems_of o)) hv in
    ap (λ o. ok_or o Error.bad_argument)
      (find_field-zip (to_list elems) key ∙ ap₂ (λ a b. lookup key (zip a b)) keys values)
eval_function-map_get c _ key ks vs hk hv = ground arith

-- Where `fn:list:append` returns a list, it is longer by one than the old one by `fn:list:len`, and
-- `fn:list:get` finds the new element at the old length.
pub eval_function-list_append :
    (c : Floats) (l v l' : Value) (n : ℕ)
    → eval_function c (bytes "fn:list:append") (l ∷ v ∷ []) ≡ ok l'
    → eval_function c (bytes "fn:list:len") (l ∷ []) ≡ ok (number (pos n))
    → (eval_function c (bytes "fn:list:len") (l' ∷ []) ≡ ok (number (pos (n + 1))))
      × (eval_function c (bytes "fn:list:get") (l' ∷ number (pos n) ∷ []) ≡ ok v)
unfolding eval_function fn_list_append fn_len fn_list_get
eval_function-list_append c (compound Value.list elems) v l' n ha hn =
    let grown = to_list-of_list (to_list elems ++ v ∷ []) in
    let size : length (to_list elems) ≡ n = ap length_of hn in
    subst
      (λ z.
        (fn_len (z ∷ []) ≡ ok (number (pos (n + 1))))
        × (fn_list_get (z ∷ number (pos n) ∷ []) ≡ ok v))
      (ok-injective ha)
      (
        ap (λ k. ok (number (pos k)))
            (ap length grown ∙ omega (arith, size, length-append (to_list elems) (v ∷ []))),
        ap (λ o. ok_or o Error.bad_argument)
            (ap₂ get_elem? grown (sym size) ∙ get_elem?-append (to_list elems) [] v),
      )
eval_function-list_append c _ v l' n ha hn = ground arith
