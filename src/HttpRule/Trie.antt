-- ===== src/HttpRule/Trie.antt =====
-- internal/httprule/trie.go: the trie of templates. A map of nodes is the list of its entries, and the map
-- of verbs is that of its leaves' templates, in the order in which a loop ranges over it. A path is the
-- list of its components.
pub mod Single
pub mod Verbs
pub mod Fuel
use grpcbridge.Base.{
  ℕ, zero, suc, ◌+◌, if◌then◌else◌, List, [], ◌∷◌, ◌++◌, Option, none, some, Bool, true, false,
  Bytes, codes, equals, length, has_suffix, split,
}
use grpcbridge.Base.Maps.{Map, put}
use grpcbridge.HttpRule.Parse.{
  Segment, Segments, wildcard, multi_wildcard, variable, literal, nil, cons, Template,
  cut_last_colon,
}

abbrev pub Verbs : Type 0
Verbs = List (Bytes × Template)

mutual
  pub data Node : Type 0 where
    node : Option Template → Children → Verbs → Pointer → Pointer → Node

  -- A pointer that may be nil.
  pub data Pointer : Type 0 where
    nil_node : Pointer
    to : Node → Pointer

  pub data Children : Type 0 where
    no_children : Children
    child : Bytes → Node → Children → Children

-- `new(node)`
abbrev pub new_node : Node
new_node = node none no_children [] nil_node nil_node

abbrev pub child_at : Bytes → Children → Pointer
child_at l no_children = nil_node
child_at l (child k n cs) = if equals l k then to n else child_at l cs

abbrev pub or_new : Pointer → Node
or_new nil_node = new_node
or_new (to n) = n

-- The child of the key, new where there was none, as the function leaves it.
abbrev pub with_child : Bytes → (Node → Node) → Children → Children
with_child l f no_children = child l (f new_node) no_children
with_child l f (child k n cs) =
    if equals l k then child k (f n) cs else child k n (with_child l f cs)

abbrev set_verb : Bytes → Template → Verbs → Verbs
set_verb v t [] = (v, t) ∷ []
set_verb v t ((w, u) ∷ vs) = if equals v w then (w, t) ∷ vs else (w, u) ∷ set_verb v t vs

-- `addLiteral`, `addWildcard` and `addMultiWildcard`, with what is done to the node that they return.
unfoldable pub add_literal : Bytes → (Node → Node) → Node → Node
add_literal l f (node t cs vs w m) = node t (with_child l f cs) vs w m

unfoldable pub add_wildcard : (Node → Node) → Node → Node
add_wildcard f (node t cs vs w m) = node t cs vs (to (f (or_new w))) m

unfoldable pub add_multi_wildcard : (Node → Node) → Node → Node
add_multi_wildcard f (node t cs vs w m) = node t cs vs w (to (f (or_new m)))

-- `node.add` and `addVariable`, and the loop of `Add`.
unfoldable mutual
  unfolding add_literal add_wildcard add_multi_wildcard

  pub add_segment : Segment → (Node → Node) → Node → Node
  add_segment wildcard f n = add_wildcard f n
  add_segment multi_wildcard f n = add_multi_wildcard f n
  add_segment (literal l) f n = add_literal l f n
  add_segment (variable path ss) f n = add_segments ss f n

  pub add_segments : Segments → (Node → Node) → Node → Node
  add_segments nil f n = f n
  add_segments (cons s ss) f n = add_segment s (λ m. add_segments ss f m) n

unfoldable leave : Bytes → Template → Node → Node
leave [] t (node _ cs vs w m) = node (some t) cs vs w m
leave (c ∷ v) t (node u cs vs w m) = node u cs (set_verb (c ∷ v) t vs) w m

unfoldable pub add_verb : Template → Node → Node
unfolding leave
add_verb t n = leave t.verb t n

unfoldable or_new_method : Option Node → Node
or_new_method none = new_node
or_new_method (some n) = n

abbrev pub Trie : Type 0
Trie = Map Node

unfoldable pub add : Trie → Bytes → Template → Trie
unfolding or_new_method
add t method tmpl =
    put method (add_segments tmpl.segments (add_verb tmpl) (or_new_method (t method))) t

-- The first verb of the loop that the path ends with, behind a colon.
abbrev pub verb_of : Bytes → Verbs → Option Template
verb_of orig [] = none
verb_of orig ((v, t) ∷ vs) = if has_suffix orig (codes ":" ++ v) then some t else verb_of orig vs

unfoldable pub dfs_leaf : Node → Bytes → Option Template
dfs_leaf (node (some t) cs vs w m) orig = some t
dfs_leaf (node none cs vs w m) orig = verb_of orig vs

abbrev pub verb_at : Bytes → Verbs → Option Template
verb_at v [] = none
verb_at v ((w, t) ∷ vs) = if equals v w then some t else verb_at v vs

unfoldable verb_of_pointer : Bytes → Pointer → Option Template
verb_of_pointer v nil_node = none
verb_of_pointer v (to (node t cs vs w m)) = verb_at v vs

-- The loop over the colons of the last component: the part behind the last colon is the verb, and the
-- part before it the next component. Each round shortens the component.
unfoldable pub literal_with_verb : ℕ → Children → Bytes → Option Template
unfolding verb_of_pointer
literal_with_verb zero cs component = none
literal_with_verb (suc f) cs component = elim (cut_last_colon component) [
  | none ↦ none
  | some (before, verb) ↦ elim (verb_of_pointer verb (child_at before cs)) [
    | none ↦ literal_with_verb f cs before
    | some t ↦ some t
  ]
]

unfoldable if_last : List Bytes → Children → Bytes → Option Template
if_last [] cs component = literal_with_verb (length component + 1) cs component
if_last (_ ∷ _) cs component = none

unfoldable multi_leaf : Pointer → Bytes → Option Template
multi_leaf nil_node orig = none
multi_leaf (to n) orig = dfs_leaf n orig

-- `dfs`, on the components left.
unfoldable pub dfs : List Bytes → Bytes → Node → Option Template
unfolding if_last multi_leaf
dfs [] orig n = dfs_leaf n orig
dfs (component ∷ left) orig (node t cs vs w m) = elim (child_at component cs) [
  | to next ↦ dfs left orig next
  | nil_node ↦ elim (if_last left cs component) [
    | some found ↦ some found
    | none ↦ elim w [ to next ↦ dfs left orig next | nil_node ↦ multi_leaf m orig ]
  ]
]

abbrev pub trim_slash : Bytes → Bytes
trim_slash [] = []
trim_slash (c ∷ s) = if equals (c ∷ []) (codes "/") then s else c ∷ s

unfoldable find_in : Option Node → Bytes → Option Template
find_in none path = none
find_in (some n) path = dfs (split b'/' path) path n

unfoldable pub find : Trie → Bytes → Bytes → Option Template
unfolding find_in
find t method path = find_in (t method) (trim_slash path)
