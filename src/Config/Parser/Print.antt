-- ===== src/Config/Parser/Print.antt =====
-- The parser gives back the groups that a printed configuration stands for.
use light_loader.Common.{ℕ, ◌≡◌, refl, some, List, [], ◌∷◌, ◌∙◌, ap, sym, arith}
use light_loader.Config.Tokens.{Token, TokenType}
use light_loader.Config.Nodes.{
  ConfigNode, Nodes, nil, cons, string_node, group_node, link_config_node,
}
use light_loader.Config.Parser.{tree, link_in_last, parse_loop, parse_config_file}

-- A configuration: named groups of named strings.
pub record Entry : Type 0 where
  pub name : List ℕ
  pub value : List ℕ

pub record Group : Type 0 where
  pub name : List ℕ
  pub entries : List Entry

abbrev token : List ℕ → TokenType → Token
token s t = record { tok = s; type = t }

abbrev line_end : Token
line_end = token (10 ∷ []) TokenType.newline

-- `name = "value"` and the end of the line.
unfoldable pub print_entries : List Entry → List Token → List Token
print_entries [] rest = rest
print_entries (e ∷ es) rest =
    token e.name TokenType.identifier
    ∷ token (b'=' ∷ []) TokenType.assign
    ∷ token e.value TokenType.string
    ∷ line_end
    ∷ print_entries es rest

-- `[name]`, the end of the line, and the entries.
unfoldable pub print_groups : List Group → List Token
unfolding print_entries
print_groups [] = []
print_groups (g ∷ gs) =
    token (b'[' ∷ []) TokenType.group_start
    ∷ token g.name TokenType.identifier
    ∷ token (b']' ∷ []) TokenType.group_end
    ∷ line_end
    ∷ print_entries g.entries (print_groups gs)

unfoldable pub entry_nodes : List Entry → Nodes
entry_nodes [] = nil
entry_nodes (e ∷ es) = cons (string_node e.name e.value) (entry_nodes es)

-- The nodes of the groups.
unfoldable pub group_nodes : List Group → Nodes
unfolding entry_nodes
group_nodes [] = nil
group_nodes (g ∷ gs) = cons (group_node g.name (entry_nodes g.entries)) (group_nodes gs)

unfoldable append : Nodes → Nodes → Nodes
append nil ms = ms
append (cons n ns) ms = cons n (append ns ms)

-- An end of line is skipped.
skip_line_end :
    (root : Nodes) (rest : List Token) → parse_loop root (line_end ∷ rest) ≡ parse_loop root rest
unfolding parse_loop
skip_line_end root [] = refl
skip_line_end root (t ∷ []) = refl
skip_line_end root (t ∷ n ∷ rest) = refl

-- The entries of the last group go to its end.
link_in_last-snoc :
    (root : Nodes) (k : List ℕ) (ns : Nodes) (child : ConfigNode)
    → link_in_last (append root (cons (group_node k ns) nil)) child
      ≡ some (append root (cons (group_node k (link_config_node ns child)) nil))
unfolding link_in_last append
link_in_last-snoc nil k ns child = refl
link_in_last-snoc (cons n nil) k ns child = refl
link_in_last-snoc (cons n (cons m root)) k ns child =
    ground (arith, link_in_last-snoc (cons m root) k ns child)

link_config_node-append :
    (ns : Nodes) (child : ConfigNode) (ms : Nodes)
    → append (link_config_node ns child) ms ≡ append ns (cons child ms)
unfolding link_config_node append
link_config_node-append nil child ms = refl
link_config_node-append (cons n ns) child ms = ap (cons n) (link_config_node-append ns child ms)

append-nil : (ns : Nodes) → append ns nil ≡ ns
unfolding append
append-nil nil = refl
append-nil (cons n ns) = ap (cons n) (append-nil ns)

append_assoc :
    (ns : Nodes) (n : ConfigNode) (ms : Nodes)
    → append (append ns (cons n nil)) ms ≡ append ns (cons n ms)
unfolding append
append_assoc nil n ms = refl
append_assoc (cons m ns) n ms = ap (cons m) (append_assoc ns n ms)

link-snoc : (ns : Nodes) (n : ConfigNode) → link_config_node ns n ≡ append ns (cons n nil)
unfolding link_config_node append
link-snoc nil n = refl
link-snoc (cons m ns) n = ap (cons m) (link-snoc ns n)

parse-entries :
    (root : Nodes) (k : List ℕ) (ns : Nodes) (es : List Entry) (rest : List Token)
    → parse_loop (append root (cons (group_node k ns) nil)) (print_entries es rest)
      ≡ parse_loop (append root (cons (group_node k (append ns (entry_nodes es))) nil)) rest
unfolding print_entries entry_nodes
parse-entries root k ns [] rest = rw (append-nil ns)
parse-entries root k ns (e ∷ es) rest =
    one_entry (append root (cons (group_node k ns) nil)) _ e (print_entries es rest)
      (link_in_last-snoc root k ns (string_node e.name e.value))
    ∙ parse-entries root k (link_config_node ns (string_node e.name e.value)) es rest
    ∙ rw (link_config_node-append ns (string_node e.name e.value) (entry_nodes es)) refl
  where
    one_entry :
        (r r' : Nodes) (e : Entry) (rest : List Token)
        → link_in_last r (string_node e.name e.value) ≡ some r'
        → parse_loop r (
            token e.name TokenType.identifier
            ∷ token (b'=' ∷ []) TokenType.assign
            ∷ token e.value TokenType.string
            ∷ line_end
            ∷ rest)
          ≡ parse_loop r' rest
    one_entry r r' e rest h = unfold parse_loop in rw h (skip_line_end r' rest)

parse-groups :
    (root : Nodes) (gs : List Group)
    → parse_loop root (print_groups gs) ≡ tree (append root (group_nodes gs))
unfolding print_groups group_nodes
parse-groups root [] = unfold parse_loop in ap tree (sym (append-nil root))
parse-groups root (g ∷ gs) =
    one_group root g.name (print_entries g.entries (print_groups gs))
    ∙ ap (λ r. parse_loop r (print_entries g.entries (print_groups gs)))
        (link-snoc root (group_node g.name nil))
    ∙ parse-entries root g.name nil g.entries (print_groups gs)
    ∙ parse-groups (append root (cons (group_node g.name (append nil (entry_nodes g.entries))) nil))
        gs
    ∙ ap tree (
        unfold append in
        append_assoc root (group_node g.name (entry_nodes g.entries)) (group_nodes gs))
  where
    one_group :
        (r : Nodes) (n : List ℕ) (rest : List Token)
        → parse_loop r (
            token (b'[' ∷ []) TokenType.group_start
            ∷ token n TokenType.identifier
            ∷ token (b']' ∷ []) TokenType.group_end
            ∷ line_end
            ∷ rest)
          ≡ parse_loop (link_config_node r (group_node n nil)) rest
    one_group r n rest =
        unfold parse_loop in skip_line_end (link_config_node r (group_node n nil)) rest

-- Parsing the tokens of a configuration gives the tree of its groups and entries, in order.
pub parse-print : (gs : List Group) → parse_config_file (print_groups gs) ≡ tree (group_nodes gs)
unfolding parse_config_file append
parse-print gs = parse-groups nil gs
