-- ===== src/Config/Nodes.antt =====
-- The tree of nodes, and look-ups in it by a dotted path: `config_file_get_node` and
-- `config_file_get_node_at`. The null list is the empty one.
pub mod Paths
use light_loader.Common.{
  ℕ, zero, suc, ◌==◌, if◌then◌else◌, Bool, true, false, not, ◌&&◌, ◌||◌, Option, none, some, List,
  [], ◌∷◌, ◌++◌,
}

-- `config_node_t`, by its type.
mutual
  pub data ConfigNode : Type 0 where
    string_node : List ℕ → List ℕ → ConfigNode
    num_node : List ℕ → ℕ → ConfigNode
    list_node : List ℕ → Nodes → ConfigNode
    group_node : List ℕ → Nodes → ConfigNode

  pub data Nodes : Type 0 where
    nil : Nodes
    cons : ConfigNode → Nodes → Nodes

unfoldable pub key : ConfigNode → List ℕ
key (string_node k v) = k
key (num_node k n) = k
key (list_node k ns) = k
key (group_node k ns) = k

-- `group_value` of a group node, and the null pointer for any other.
unfoldable pub group_value : ConfigNode → Nodes
group_value (group_node k ns) = ns
group_value (string_node k v) = nil
group_value (num_node k n) = nil
group_value (list_node k ns) = nil

unfoldable pub is_null : Nodes → Bool
is_null nil = true
is_null (cons n ns) = false

-- `strncmp(node_name, n->key, node_name_len) == 0`: the name is a prefix of the key.
unfoldable pub name_matches : List ℕ → List ℕ → Bool
name_matches [] k = true
name_matches (c ∷ cs) [] = false
name_matches (c ∷ cs) (d ∷ ds) = c == d && name_matches cs ds

-- The loop over a group's nodes: the first match, or null.
unfoldable pub find : List ℕ → Nodes → Option ConfigNode
unfolding name_matches key
find name nil = none
find name (cons n ns) = if name_matches name (key n) then some n else find name ns

unfoldable pub list_of : Option ConfigNode → Nodes
unfolding group_value
list_of none = nil
list_of (some n) = group_value n

-- The loop over the path: the current node, the current list, the subentry read so far, and whether
-- dots behind a dot are being skipped. The end of the path is the NUL.
unfoldable pub get_loop : Option ConfigNode → Nodes → List ℕ → Bool → List ℕ → Option ConfigNode
get_loop cur list name skipping [] = if is_null list then cur else find name list
get_loop cur list name skipping (c ∷ cs) =
    let found = find name list in
    let skip = get_loop cur list name true cs in
    let down = get_loop found (list_of found) [] true cs in
    let on = get_loop cur list (name ++ (c ∷ [])) false cs in
    if skipping && c == b'.'
    then skip
    else if is_null list
    then cur
    else if c == b'.'
    then down
    else on

-- `none` is the result -1. The root node is a group node.
unfoldable pub config_file_get_node : ConfigNode → List ℕ → Option ConfigNode
config_file_get_node root path = get_loop (some root) (group_value root) [] false path

unfoldable pub nth_node : ℕ → Nodes → Option ConfigNode
nth_node idx nil = none
nth_node zero (cons n ns) = some n
nth_node (suc idx) (cons n ns) = nth_node idx ns

unfoldable pub is_group : ConfigNode → Bool
is_group (group_node k ns) = true
is_group (string_node k v) = false
is_group (num_node k n) = false
is_group (list_node k ns) = false

unfoldable pub config_file_get_node_at : ConfigNode → List ℕ → ℕ → Option ConfigNode
config_file_get_node_at root path idx = elim (config_file_get_node root path) [
  | none ↦ none
  | some n ↦ if is_group n then nth_node idx (group_value n) else none
]

-- `link_config_node`: the child goes to the end.
unfoldable pub link_config_node : Nodes → ConfigNode → Nodes
link_config_node nil child = cons child nil
link_config_node (cons n ns) child = cons n (link_config_node ns child)
