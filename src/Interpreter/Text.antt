-- ===== src/Interpreter/Text.antt =====
-- The operations on byte strings and pairs that the built-in predicates of
-- crates/mangle-interpreter/src/lib.rs call.
use mangle_rs.Prelude.{
  Bool, true, false, ◌&&◌, ◌||◌, Option, none, some, List, [], ◌∷◌, if◌then◌else◌, ◌==◌, nat_eq,
  list_eq, pair_eq, Str, Outcome, ◌>>=◌, or_panic, ok, int_eq,
}
use mangle_rs.Common.Value.{Value}
use mangle_rs.Common.Value.Equality.{value_eq}

-- `str::starts_with`
unfoldable pub starts_with : Str → Str → Bool
starts_with s [] = true
starts_with [] (p ∷ ps) = false
starts_with (c ∷ s) (p ∷ ps) = c == p && starts_with s ps

-- `str::ends_with`
unfoldable pub ends_with : Str → Str → Bool
ends_with [] p = [] == p
ends_with (c ∷ s) p = c ∷ s == p || ends_with s p

-- `str::contains`
unfoldable pub contains_str : Str → Str → Bool
unfolding starts_with
contains_str [] p = starts_with [] p
contains_str (c ∷ s) p = starts_with (c ∷ s) p || contains_str s p

-- `slice::contains`
unfoldable pub contains_value : List Value → Value → Bool
contains_value [] v = false
contains_value (x ∷ xs) v = x == v || contains_value xs v

-- `pairs.chunks_exact(2).find(|chunk| chunk[0] == key).map(|chunk| chunk[1])`
unfoldable pub find_field : List Value → Value → Option Value
find_field [] key = none
find_field (k ∷ []) key = none
find_field (k ∷ v ∷ rest) key = if k == key then some v else find_field rest key

-- `chunks_exact(2).any(|chunk| chunk[0] == field && chunk[1] == vals[2])`, where `vals[2]` is read
-- only once a field is found
unfoldable pub any_field : List Value → Value → Option Value → Outcome Bool
any_field [] key wanted = ok false
any_field (k ∷ []) key wanted = ok false
any_field (k ∷ v ∷ rest) key wanted = elim (k == key) [
  | true ↦
      or_panic wanted >>= λ w. elim (v == w) [ true ↦ ok true | false ↦ any_field rest key wanted ]
  | false ↦ any_field rest key wanted
]
