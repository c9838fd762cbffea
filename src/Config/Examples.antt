-- ===== src/Config/Examples.antt =====
-- A file, and the tokens and the tree of a configuration with one group.
use light_loader.Common.{
  ℕ, ◌≡◌, ◌⊎◌, refl, none, some, List, [], ◌∷◌, ◌==◌, if◌then◌else◌, arith, ◌++◌,
}
use light_loader.Common.Bytes.{Mem}
use light_loader.Config.Tokens.{Token, tokenize}
use light_loader.Config.Tokens.Progress.{Meets, start, tokenize-returns}
use light_loader.Config.Nodes.{
  ConfigNode, nil, cons, string_node, group_node, is_null, find, group_value, config_file_get_node,
}
use light_loader.Config.Nodes.Paths.{dotted, walk, get_node-walk}
use light_loader.Config.Parser.{tree, parse_config_file}
use light_loader.Config.Parser.Print.{Group, print_groups, group_nodes, parse-print}

-- The file "a=".
abbrev file : Mem
file = λ a. if a == 0 then b'a' else if a == 1 then b'=' else 0

abbrev boot : List Group
boot =
    record {
      name = b'b' ∷ [];
      entries = record { name = b'k' ∷ []; value = b'/' ∷ b'x' ∷ [] } ∷ [];
    }
    ∷ []

abbrev root : ConfigNode
root =
    group_node []
      (cons (group_node (b'b' ∷ []) (cons (string_node (b'k' ∷ []) (b'v' ∷ [])) nil)) nil)

tokenize-returns_example :
    ((ts : List Token) × (tokenize 3 file 2 ≡ some ts))
    ⊎ (Meets file 2 start 0 × ((rounds : ℕ) → tokenize rounds file 2 ≡ none))
tokenize-returns_example = tokenize-returns 3 file 2 (omega arith)

get_node-walk_example :
    config_file_get_node root ((b'b' ∷ []) ++ dotted ((b'k' ∷ []) ∷ []))
    ≡ walk (find (b'b' ∷ []) (group_value root)) ((b'k' ∷ []) ∷ [])
unfolding is_null group_value
get_node-walk_example =
    get_node-walk root (b'b' ∷ []) ((b'k' ∷ []) ∷ []) refl ((λ e. omega (arith, e)), tt)
      (((λ e. omega (arith, e)), tt), tt)

parse-print_example : parse_config_file (print_groups boot) ≡ tree (group_nodes boot)
parse-print_example = parse-print boot
