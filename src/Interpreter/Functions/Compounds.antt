-- ===== src/Interpreter/Functions/Compounds.antt =====
-- crates/mangle-interpreter/src/lib.rs, `eval_function`: lists, pairs, structs and maps. The fields of a
-- struct and the entries of a map are two elements each.
pub mod Laws
use mangle_rs.Prelude.{
  ℕ, ◌-◌, ◌/◌, ◌%◌, ◌^◌, List, [], ◌∷◌, ◌++◌, map, if◌then◌else◌, length, get_elem?, ◌==◌, nat_eq,
  list_eq, pair_eq, Error, Outcome, ok_or, ok, err, bad_argument, ℤ, int_eq,
}
use mangle_rs.Prelude.{pos, negsuc}
use mangle_rs.Common.Value
use mangle_rs.Common.Value.{Value, Values, nil, cons, number, compound, to_list, of_list, count}
use mangle_rs.Common.Value.Equality.{value_eq}
use mangle_rs.Interpreter.Text.{find_field}

unfoldable pub fn_list : List Value → Outcome Value
fn_list vals = ok (compound Value.list (of_list vals))

unfoldable pub fn_pair : List Value → Outcome Value
fn_pair (a ∷ b ∷ []) = ok (compound Value.pair (of_list (a ∷ b ∷ [])))
fn_pair _ = err Error.bad_argument

unfoldable pub fn_struct : List Value → Outcome Value
fn_struct vals =
    if length vals % 2 == 0
    then ok (compound Value.struct (of_list vals))
    else err Error.bad_argument

unfoldable pub fn_map : List Value → Outcome Value
fn_map vals =
    if length vals % 2 == 0 then ok (compound Value.map (of_list vals)) else err Error.bad_argument

-- `*idx as usize`
abbrev pub as_usize : ℤ → ℕ
as_usize (pos n) = n
as_usize (negsuc n) = 2 ^ 64 - 1 - n

unfoldable pub fn_list_get : List Value → Outcome Value
fn_list_get (compound kind elems ∷ number idx ∷ []) =
    ok_or (get_elem? (to_list elems) (as_usize idx)) Error.bad_argument
fn_list_get _ = err Error.bad_argument

unfoldable pub fn_list_append : List Value → Outcome Value
fn_list_append (compound Value.list elems ∷ v ∷ []) =
    ok (compound Value.list (of_list (to_list elems ++ v ∷ [])))
fn_list_append _ = err Error.bad_argument

unfoldable pub fn_len : List Value → Outcome Value
fn_len (compound kind elems ∷ []) = ok (number (pos (length (to_list elems))))
fn_len _ = err Error.bad_argument

unfoldable pub fn_pair_first : List Value → Outcome Value
fn_pair_first (compound kind (cons a elems) ∷ []) = ok a
fn_pair_first _ = err Error.bad_argument

unfoldable pub fn_pair_second : List Value → Outcome Value
fn_pair_second (compound kind (cons a (cons b elems)) ∷ []) = ok b
fn_pair_second _ = err Error.bad_argument

unfoldable pub fn_get : List Value → Outcome Value
unfolding find_field
fn_get (compound kind elems ∷ key ∷ []) = ok_or (find_field (to_list elems) key) Error.bad_argument
fn_get _ = err Error.bad_argument

unfoldable pub fn_pairs_len : List Value → Outcome Value
fn_pairs_len (compound kind elems ∷ []) = ok (number (pos (length (to_list elems) / 2)))
fn_pairs_len _ = err Error.bad_argument

-- `chunks_exact(2).map(|p| p[0])`
unfoldable pub pair_keys : List Value → List Value
pair_keys [] = []
pair_keys (k ∷ []) = []
pair_keys (k ∷ v ∷ rest) = k ∷ pair_keys rest

unfoldable pub pair_values : List Value → List Value
pair_values [] = []
pair_values (k ∷ []) = []
pair_values (k ∷ v ∷ rest) = v ∷ pair_values rest

unfoldable pub fn_map_keys : List Value → Outcome Value
unfolding pair_keys
fn_map_keys (compound kind elems ∷ []) =
    ok (compound Value.list (of_list (pair_keys (to_list elems))))
fn_map_keys _ = err Error.bad_argument

unfoldable pub fn_map_values : List Value → Outcome Value
unfolding pair_values
fn_map_values (compound kind elems ∷ []) =
    ok (compound Value.list (of_list (pair_values (to_list elems))))
fn_map_values _ = err Error.bad_argument
