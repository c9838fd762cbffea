-- ===== src/Config/Parser.antt =====
-- `__parse_config_file`: the tree that the tokens stand for. Every `return` of the source leaves the
-- tree that was built so far.
pub mod Print
use light_loader.Common.{ℕ, if◌then◌else◌, Bool, Option, none, some, List, [], ◌∷◌}
use light_loader.Config.Tokens.{Token, TokenType, istype}
use light_loader.Config.Nodes.{
  ConfigNode, Nodes, nil, cons, string_node, num_node, list_node, group_node, link_config_node,
}

-- `fault` is a value before any group: the source follows the null `cur_gnode` there.
pub data Parsed : Type 0 where
  tree : Nodes → Parsed
  fault : Parsed

-- `link_config_node(&cur_gnode->group_value, child)`: `cur_gnode` is the root's last node, which is
-- always a group. `none` is the null `cur_gnode`.
unfoldable pub link_in_group : ConfigNode → ConfigNode → ConfigNode
link_in_group (group_node k ns) child = group_node k (link_config_node ns child)
link_in_group (string_node k v) child = string_node k v
link_in_group (num_node k n) child = num_node k n
link_in_group (list_node k ns) child = list_node k ns

unfoldable pub link_in_last : Nodes → ConfigNode → Option Nodes
unfolding link_in_group
link_in_last nil child = none
link_in_last (cons n nil) child = some (cons (link_in_group n child) nil)
link_in_last (cons n (cons m ns)) child = elim (link_in_last (cons m ns) child) [
  | none ↦ none
  | some ns' ↦ some (cons n ns')
]

-- The children of the root node, as the loop over the tokens leaves them.
unfoldable pub parse_loop : Nodes → List Token → Parsed
unfolding istype
parse_loop root [] = tree root
parse_loop root (t ∷ []) = tree root
parse_loop root (t ∷ n1 ∷ []) = elim t.type [
  | TokenType.group_start ↦ tree root
  | TokenType.identifier ↦ tree root
  | _ ↦ parse_loop root (n1 ∷ [])
]
parse_loop root (t ∷ n1 ∷ n2 ∷ rest) = elim t.type [
  | TokenType.group_start ↦
      let grown = parse_loop (link_config_node root (group_node n1.tok nil)) rest in
      if istype (some n1) TokenType.identifier
      then (if istype (some n2) TokenType.group_end then grown else tree root)
      else tree root
  | TokenType.identifier ↦
      let skipped = parse_loop root rest in
      if istype (some n1) TokenType.assign
      then elim n2.type [
        | TokenType.string ↦ elim (link_in_last root (string_node t.tok n2.tok)) [
          | none ↦ fault
          | some root' ↦ parse_loop root' rest
        ]
        | TokenType.num ↦ skipped
        | _ ↦ tree root
      ]
      else tree root
  | _ ↦ parse_loop root (n1 ∷ n2 ∷ rest)
]

-- The root node of the parsed file.
unfoldable pub parse_config_file : List Token → Parsed
parse_config_file tokens = parse_loop nil tokens
