-- ===== src/HttpRule/Trie/Single.antt =====
-- internal/httprule/trie.go: a trie of one template without a verb against a plain matcher.
use grpcbridge.Base.{
  ℕ, zero, suc, ◌+◌, ◌≡◌, refl, sym, ap, ◌∙◌, if◌then◌else◌, List, [], ◌∷◌, ◌++◌, Option, none,
  some, Bool, true, false, Bytes, equals, length, split, arith, Bool-cases, Option-cases, inl, inr,
}
use grpcbridge.Base.Maps.{put, empty}
use grpcbridge.HttpRule.Parse.{
  Segment, Segments, wildcard, multi_wildcard, variable, literal, nil, cons, Template,
  cut_last_colon,
}
use grpcbridge.HttpRule.Trie.{
  Node, node, nil_node, to, no_children, child, new_node, add_segment, add_segments, leave,
  add_verb, or_new_method, add, dfs_leaf, verb_of_pointer, literal_with_verb, if_last, multi_leaf,
  dfs, trim_slash, find_in, find,
}

-- The segments with those of the variables in their place.
pub data Part : Type 0 where
  text : Bytes → Part
  any_one : Part
  any_rest : Part

abbrev mutual
  pub parts_of : Segment → List Part
  parts_of wildcard = any_one ∷ []
  parts_of multi_wildcard = any_rest ∷ []
  parts_of (literal l) = text l ∷ []
  parts_of (variable path ss) = parts ss

  pub parts : Segments → List Part
  parts nil = []
  parts (cons s ss) = parts_of s ++ parts ss

-- Whether the components match, one by one; the double star matches the rest, of at least one.
abbrev pub matches : List Part → List Bytes → Bool
matches [] [] = true
matches [] (c ∷ cs) = false
matches (p ∷ ps) [] = false
matches (text l ∷ ps) (c ∷ cs) = if equals c l then matches ps cs else false
matches (any_one ∷ ps) (c ∷ cs) = matches ps cs
matches (any_rest ∷ []) (c ∷ cs) = true
matches (any_rest ∷ p ∷ ps) (c ∷ cs) = false

-- The branch of the trie for the parts.
abbrev branch : List Part → Node → Node
branch [] n = n
branch (text l ∷ ps) n = node none (child l (branch ps n) no_children) [] nil_node nil_node
branch (any_one ∷ ps) n = node none no_children [] (to (branch ps n)) nil_node
branch (any_rest ∷ ps) n = node none no_children [] nil_node (to (branch ps n))

branch-append : (ps qs : List Part) (n : Node) → branch (ps ++ qs) n ≡ branch ps (branch qs n)
branch-append [] qs n = refl
branch-append (text l ∷ ps) qs n =
    ap (λ (m : Node). node none (child l m no_children) [] nil_node nil_node)
      (branch-append ps qs n)
branch-append (any_one ∷ ps) qs n =
    ap (λ (m : Node). node none no_children [] (to m) nil_node) (branch-append ps qs n)
branch-append (any_rest ∷ ps) qs n =
    ap (λ (m : Node). node none no_children [] nil_node (to m)) (branch-append ps qs n)

mutual
  unfolding add_segment add_segments

  add_segment-branch :
      (s : Segment) (f : Node → Node) → add_segment s f new_node ≡ branch (parts_of s) (f new_node)
  add_segment-branch wildcard f = refl
  add_segment-branch multi_wildcard f = refl
  add_segment-branch (literal l) f = refl
  add_segment-branch (variable path ss) f = add_segments-branch ss f

  add_segments-branch :
      (ss : Segments) (f : Node → Node)
      → add_segments ss f new_node ≡ branch (parts ss) (f new_node)
  add_segments-branch nil f = refl
  add_segments-branch (cons s ss) f =
      add_segment-branch s (λ m. add_segments ss f m)
      ∙ ap (branch (parts_of s)) (add_segments-branch ss f)
      ∙ sym (branch-append (parts_of s) (parts ss) (f new_node))

module _ (t : Template) where
  abbrev leaf : Node
  leaf = node (some t) no_children [] nil_node nil_node

  no_verb_at_none : (f : ℕ) (c : Bytes) → literal_with_verb f no_children c ≡ none
  unfolding literal_with_verb
  no_verb_at_none zero c = refl
  no_verb_at_none (suc f) c = elim (Option-cases (cut_last_colon c)) [
    | inl n ↦ rw (n, literal_with_verb) refl
    | inr (p, e) ↦ rw (e, literal_with_verb) (no_verb_at_none f p.0)
  ]

  no_verbs : (ps : List Part) (v : Bytes) → verb_of_pointer v (to (branch ps leaf)) ≡ none
  unfolding verb_of_pointer
  no_verbs [] v = refl
  no_verbs (text l ∷ ps) v = refl
  no_verbs (any_one ∷ ps) v = refl
  no_verbs (any_rest ∷ ps) v = refl

  no_verb_at_child :
      (f : ℕ) (l c : Bytes) (ps : List Part)
      → literal_with_verb f (child l (branch ps leaf) no_children) c ≡ none
  unfolding literal_with_verb
  no_verb_at_child zero l c ps = refl
  no_verb_at_child (suc f) l c ps = elim (Option-cases (cut_last_colon c)) [
    | inl n ↦ rw (n, literal_with_verb) refl
    | inr (p, e) ↦ elim (Bool-cases (equals p.0 l)) [
      | inl y ↦ ground (arith, no_verbs ps p.1, no_verb_at_child f l p.0 ps)
      | inr n ↦ ground (arith, no_verb_at_child f l p.0 ps)
    ]
  ]

  last_none : (cs : List Bytes) (c : Bytes) → if_last cs no_children c ≡ none
  unfolding if_last
  last_none [] c = no_verb_at_none (length c + 1) c
  last_none (d ∷ cs) c = refl

  last_none_at_child :
      (cs : List Bytes) (l c : Bytes) (ps : List Part)
      → if_last cs (child l (branch ps leaf) no_children) c ≡ none
  unfolding if_last
  last_none_at_child [] l c ps = no_verb_at_child (length c + 1) l c ps
  last_none_at_child (d ∷ cs) l c ps = refl

  dfs_leaf-branch :
      (p : Part) (ps : List Part) (orig : Bytes) → dfs_leaf (branch (p ∷ ps) leaf) orig ≡ none
  unfolding dfs_leaf
  dfs_leaf-branch (text l) ps orig = refl
  dfs_leaf-branch any_one ps orig = refl
  dfs_leaf-branch any_rest ps orig = refl

  dfs-branch :
      (ps : List Part) (cs : List Bytes) (orig : Bytes)
      → dfs cs orig (branch ps leaf) ≡ (if matches ps cs then some t else none)
  unfolding dfs dfs_leaf if_last multi_leaf
  dfs-branch [] [] orig = refl
  dfs-branch [] (c ∷ cs) orig = rw (last_none cs c, dfs) refl
  dfs-branch (text l ∷ ps) [] orig = refl
  dfs-branch (any_one ∷ ps) [] orig = refl
  dfs-branch (any_rest ∷ ps) [] orig = refl
  dfs-branch (text l ∷ ps) (c ∷ cs) orig = elim (Bool-cases (equals c l)) [
    | inl y ↦ rw (y, dfs) (dfs-branch ps cs orig)
    | inr n ↦ rw (n, dfs) (rw (last_none_at_child cs l c ps, dfs) refl)
  ]
  dfs-branch (any_one ∷ ps) (c ∷ cs) orig = rw (last_none cs c, dfs) (dfs-branch ps cs orig)
  dfs-branch (any_rest ∷ []) (c ∷ cs) orig = rw (last_none cs c, dfs) refl
  dfs-branch (any_rest ∷ p ∷ ps) (c ∷ cs) orig =
      rw (last_none cs c, dfs) (dfs_leaf-branch p ps orig)

put_self : {V : Type 0} (k : Bytes) (v : V) → put k v empty k ≡ some v
put_self k v = ground arith

put_other :
    {V W : Type 0} (k j : Bytes) (v : V) (f : Option V → Option W)
    → f none ≡ none
    → f (put k v empty j) ≡ (if equals j k then f (put k v empty k) else none)
put_other k j v f h = ground arith

-- In a trie of one template without a verb, Find gives the template exactly for the paths whose
-- components match it, and for its HTTP method only.
pub find-add :
    (t : Template) (method other path : Bytes)
    → t.verb ≡ []
    → (find (add empty method t) method path
        ≡ (if matches (parts t.segments) (split b'/' (trim_slash path)) then some t else none))
      × (find (add empty method t) other path
          ≡ (if equals other method then find (add empty method t) method path else none))
unfolding find find_in add or_new_method add_verb leave
find-add t method other path h =
    let root = add_segments t.segments (add_verb t) new_node in
    let built : root ≡ branch (parts t.segments) (leaf t) =
      add_segments-branch t.segments (add_verb t)
      ∙ ap (λ (v : Bytes). branch (parts t.segments) (leave v t new_node)) h in
    (
      ap (λ (o : Option Node). find_in o (trim_slash path)) (put_self method root)
          ∙ ap (λ (n : Node). dfs (split b'/' (trim_slash path)) (trim_slash path) n) built
          ∙ dfs-branch t (parts t.segments) (split b'/' (trim_slash path)) (trim_slash path),
      put_other method other root (λ (o : Option Node). find_in o (trim_slash path)) refl,
    )
