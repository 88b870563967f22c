-- ===== src/Splits/UnionFind.antt =====
-- `_UnionFind` of src/fieldtrue/splits.py.
use inbar.Prelude.{same_text, ℕ, zero, suc, String, if◌then◌else◌}

-- The dictionary of parents; every identifier asked for is a key.
abbrev pub Parents : Type 0
Parents = String → String

-- `self.parent[identifier] = parent`
unfoldable pub set_parent : String → String → Parents → Parents
set_parent identifier parent parents other =
    if same_text other identifier then parent else parents other

-- The root, and the parents with the way to it shortened.
unfoldable pub find : ℕ → Parents → String → String × Parents
unfolding set_parent
find zero parents identifier = (parents identifier, parents)
find (suc fuel) parents identifier =
    let (root, shortened) = find fuel parents (parents identifier) in
    if same_text (parents identifier) identifier
    then (identifier, parents)
    else (root, set_parent identifier root shortened)

unfoldable pub union : ℕ → Parents → String → String → Parents
unfolding set_parent find
union fuel parents left right =
    let (left_root, once) = find fuel parents left in
    let (right_root, twice) = find fuel once right in
    if same_text left_root right_root then twice else set_parent right_root left_root twice
