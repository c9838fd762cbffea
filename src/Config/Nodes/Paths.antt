-- ===== src/Config/Nodes/Paths.antt =====
-- A dotted path is a walk down the groups.
use light_loader.Common.{
  inl, inr, ℕ, ◌≡◌, ◌≢◌, Bool, true, false, ◌&&◌, ◌==◌, if◌then◌else◌, Option, some, List, [], ◌∷◌,
  ◌++◌, arith, Bool-cases, ◌∙◌, ap, sym,
}
use mathlib.Core.List.{append-nil, append_assoc}
use light_loader.Config.Nodes.{
  ConfigNode, Nodes, is_null, find, list_of, group_value, get_loop, config_file_get_node,
}

-- A name has no dot in it.
abbrev pub NoDot : List ℕ → Type 0
NoDot [] = Unit {0}
NoDot (c ∷ cs) = (c ≢ b'.') × NoDot cs

-- A dot and a name for each further part of a path.
unfoldable pub dotted : List (List ℕ) → List ℕ
dotted [] = []
dotted (n ∷ ns) = b'.' ∷ n ++ dotted ns

-- The walk: each name is looked up in the group found so far; what is found where no group is left
-- ends it.
unfoldable pub walk : Option ConfigNode → List (List ℕ) → Option ConfigNode
walk cur [] = cur
walk cur (n ∷ ns) = if is_null (list_of cur) then cur else walk (find n (list_of cur)) ns

abbrev pub Names : List (List ℕ) → Type 0
Names [] = Unit {0}
Names ((c ∷ n) ∷ ns) = NoDot (c ∷ n) × Names ns
Names ([] ∷ ns) = ⊥

-- With no list left the loop ends with the current node, whatever is left of the path.
get_loop-null :
    (cur : Option ConfigNode) (list : Nodes) (name : List ℕ) (skipping : Bool) (path : List ℕ)
    → is_null list ≡ true
    → get_loop cur list name skipping path ≡ cur
unfolding get_loop
get_loop-null cur list name skipping [] e = rw e
get_loop-null cur list name skipping (c ∷ cs) e = elim (Bool-cases (skipping && c == b'.')) [
  | inl s ↦ rw s (get_loop-null cur list name true cs e)
  | inr s ↦ rw (s, e)
]

-- The characters of a name are gathered.
get_loop-name :
    (cur : Option ConfigNode) (list : Nodes) (name n rest : List ℕ)
    → is_null list ≡ false
    → NoDot n
    → get_loop cur list name false (n ++ rest) ≡ get_loop cur list (name ++ n) false rest
unfolding get_loop
get_loop-name cur list name [] rest e nd = rw (append-nil name)
get_loop-name cur list name (c ∷ n) rest e (ne, nd) =
    let no_dot : (c == b'.') ≡ false = ground arith in
    rw (e, no_dot)
      (get_loop-name cur list (name ++ (c ∷ [])) n rest e nd
        ∙ ap (λ w. get_loop cur list w false rest) (append_assoc name (c ∷ []) n))

-- A dot and the character behind it, which is no dot.
down_step :
    (cur : Option ConfigNode) (list : Nodes) (name : List ℕ) (c : ℕ) (rest : List ℕ)
    → is_null list ≡ false
    → c ≢ b'.'
    → get_loop cur list name false (b'.' ∷ c ∷ rest)
      ≡ get_loop (find name list) (list_of (find name list)) (c ∷ []) false rest
unfolding get_loop
down_step cur list name c rest e ne =
    let no_dot : (c == b'.') ≡ false = ground arith in
    let found = find name list in
    elim (Bool-cases (is_null (list_of found))) [
      | inl null ↦
          rw (e, no_dot, null) (sym (get_loop-null found (list_of found) (c ∷ []) false rest null))
      | inr more ↦ rw (e, no_dot, more)
    ]

get_loop-walk :
    (cur : Option ConfigNode) (list : Nodes) (name : List ℕ) (ns : List (List ℕ))
    → is_null list ≡ false
    → Names ns
    → get_loop cur list name false (dotted ns) ≡ walk (find name list) ns
unfolding dotted walk
get_loop-walk cur list name [] e h = unfold get_loop in rw e
get_loop-walk cur list name ([] ∷ ns) e h = absurd h
get_loop-walk cur list name ((c ∷ n) ∷ ns) e (nd, h) =
    down_step cur list name c (n ++ dotted ns) e nd.0
    ∙ elim (Bool-cases (is_null (list_of (find name list)))) [
      | inl null ↦ rw null (
          get_loop-null (find name list) (list_of (find name list)) (c ∷ []) false (n ++ dotted ns)
            null)
      | inr more ↦ rw more (
          get_loop-name (find name list) (list_of (find name list)) (c ∷ []) n (dotted ns) more nd.1
          ∙ get_loop-walk (find name list) (list_of (find name list)) (c ∷ n) ns more h)
    ]

-- If the root group is not empty, looking up a path of dot-free names, the later ones not empty and
-- each set off by one dot, is the walk down the groups that takes the first node with a matching key.
pub get_node-walk :
    (root : ConfigNode) (n : List ℕ) (ns : List (List ℕ))
    → is_null (group_value root) ≡ false
    → NoDot n
    → Names ns
    → config_file_get_node root (n ++ dotted ns) ≡ walk (find n (group_value root)) ns
unfolding config_file_get_node
get_node-walk root n ns e nd h =
    get_loop-name (some root) (group_value root) [] n (dotted ns) e nd
    ∙ get_loop-walk (some root) (group_value root) n ns e h
