-- ===== src/Tests/Names.antt =====
-- The name trie at concrete inputs.
use mangle_rs.Prelude.{◌≡◌, refl, ◌||◌, [], ◌∷◌, ◌==◌, nat_eq, list_eq, pair_eq, bytes, int_eq}
use mangle_rs.Analysis.NameTrie
use mangle_rs.Analysis.NameTrie.{split_name, add, contains, contains-add}

abbrev animals : NameTrie.NameTrie
animals = add NameTrie.new (bytes "/animal")

segments : split_name (bytes "/animal//dog") ≡ bytes "animal" ∷ bytes "dog" ∷ []
unfolding split_name
segments = refl

contains-add_example : contains (add animals (bytes "/animal/dog")) (bytes "/animal") ≡ (
    split_name (bytes "/animal/dog") == split_name (bytes "/animal")
    || contains animals (bytes "/animal"))
contains-add_example = contains-add animals (bytes "/animal/dog") (bytes "/animal")
