-- ===== src/Ir/Interner.antt =====
-- crates/mangle-ir/src/lib.rs, `InternKey` and `Store`: strings and their keys.
-- A key is the u32 that its `NonZeroU32` holds; making one from an index can panic.
pub mod Laws
use mangle_rs.Prelude.{
  ℕ, ◌+◌, ◌-◌, ◌%◌, ◌^◌, Str, list_eq, nat_eq, Option, none, some, List, [], ◌∷◌, ◌++◌, Outcome, ok,
  ◌>>=◌, or_panic, length, get_elem?, nat_beq, if◌then◌else◌,
}
use mangle_rs.Prelude.Map.{Map, empty, insert}

-- `NonZeroU32::new((index + 1) as u32).expect(..)`
unfoldable pub new_key : ℕ → Outcome ℕ
new_key index = let k = (index + 1) % 2 ^ 32 in or_panic (if nat_beq k 0 then none else some k)

unfoldable pub index : ℕ → ℕ
index key = key - 1

pub record Interner : Type 0 where
  pub keys : Map Str ℕ
  pub vec : List Str

abbrev pub new : Interner
new = record { keys = empty; vec = [] }

-- the branch of `intern` for a name that is not there yet
intern_fresh : Interner → Str → Outcome (Interner × ℕ)
intern_fresh s name = do
  id ← new_key (length s.vec)
  ok (record { keys = insert s.keys name id; vec = s.vec ++ name ∷ [] }, id)

unfoldable pub intern : Interner → Str → Outcome (Interner × ℕ)
unfolding intern_fresh
intern s name = elim (s.keys name) [ some id ↦ ok (s, id) | none ↦ intern_fresh s name ]

unfoldable pub get : Interner → ℕ → Outcome Str
unfolding index
get s id = or_panic (get_elem? s.vec (index id))

unfoldable pub lookup : Interner → Str → Option ℕ
lookup s name = s.keys name
