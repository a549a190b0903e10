-- ===== src/HttpRule/Trie/Verbs.antt =====
-- internal/httprule/trie.go: the loop over colons forgets the verbs that it has tried.
use grpcbridge.Base.{
  ℕ, suc, ◌+◌, ◌-◌, ◌≡◌, refl, sym, ap, ◌∙◌, List, [], ◌∷◌, ◌++◌, Option, none, some, true, false,
  Bytes, equals, length, length-append, split, arith, Bool-cases, inl, inr, bytes_discrete, Lacks,
  append_assoc,
}
use grpcbridge.Base.Maps.{put, empty}
use grpcbridge.HttpRule.Parse.{Segments, literal, nil, cons, Template, cut_last_colon}
use grpcbridge.HttpRule.Trie.{
  Node, Children, node, nil_node, no_children, child, new_node, add_segments, leave, add_verb,
  or_new_method, add, verb_of_pointer, literal_with_verb, if_last, dfs, find_in, find,
}

cut_last_colon-none : (w : Bytes) → Lacks b':' w → cut_last_colon w ≡ none
unfolding cut_last_colon
cut_last_colon-none [] h = refl
cut_last_colon-none (c ∷ w) h = ground (arith, cut_last_colon-none w h.1)

cut_last_colon_found : (a w : Bytes) → Lacks b':' w → cut_last_colon (a ++ b':' ∷ w) ≡ some (a, w)
unfolding cut_last_colon
cut_last_colon_found [] w h = ground (arith, cut_last_colon-none w h)
cut_last_colon_found (c ∷ a) w h = ground (arith, cut_last_colon_found a w h)

split_none : (c : ℕ) (s : Bytes) → Lacks c s → split c s ≡ s ∷ []
unfolding split
split_none c [] h = refl
split_none c (x ∷ s) h = ground (arith, split_none c s h.1)

Lacks-append : (c : ℕ) (s t : Bytes) → Lacks c s → Lacks c t → Lacks c (s ++ t)
Lacks-append c [] t h k = k
Lacks-append c (x ∷ s) t h k = (h.0, Lacks-append c s t h.1 k)

longer_differs : (l s : Bytes) (c : ℕ) → equals (l ++ c ∷ s) l ≡ false
longer_differs l s c = elim (Bool-cases (equals (l ++ c ∷ s) l)) [
  | inr n ↦ n
  | inl y ↦
      let same : l ++ c ∷ s ≡ l = ground arith in
      absurd (omega (arith, ap length same, length-append l (c ∷ s)))
]

equals_self : (l : Bytes) → equals l l ≡ true
equals_self l = ground arith

module _ (t : Template) (l v w : Bytes) (hv : Lacks b':' v) (hw : Lacks b':' w) where
  abbrev verb_leaf : Node
  verb_leaf = node none no_children ((v, t) ∷ []) nil_node nil_node

  abbrev only_child : Children
  only_child = child l verb_leaf no_children

  second_round : (f : ℕ) → literal_with_verb (suc f) only_child (l ++ b':' ∷ v) ≡ some t
  unfolding literal_with_verb verb_of_pointer
  second_round f = ground (arith, cut_last_colon_found l v hv, equals_self l, equals_self v)

  first_round :
      (f : ℕ) → literal_with_verb (suc (suc f)) only_child (l ++ b':' ∷ (v ++ b':' ∷ w)) ≡ some t
  unfolding literal_with_verb verb_of_pointer
  first_round f =
      let cut : cut_last_colon (l ++ b':' ∷ (v ++ b':' ∷ w)) ≡ some (l ++ b':' ∷ v, w) =
        ap cut_last_colon (sym (append_assoc l (b':' ∷ v) (b':' ∷ w)))
        ∙ cut_last_colon_found (l ++ b':' ∷ v) w hw in
      ground (arith, longer_differs l v b':', second_round f)

  found_below :
      (orig : Bytes)
      → dfs ((l ++ b':' ∷ (v ++ b':' ∷ w)) ∷ []) orig (node none only_child [] nil_node nil_node)
        ≡ some t
  unfolding dfs if_last
  found_below orig =
      let whole = l ++ b':' ∷ (v ++ b':' ∷ w) in
      let fuel : length whole + 1 ≡ suc (suc (length whole - 1)) =
        omega (arith, length-append l (b':' ∷ (v ++ b':' ∷ w))) in
      rw (longer_differs l (v ++ b':' ∷ w) b':', dfs)
        (rw
          (
            ap (λ (f : ℕ). literal_with_verb f only_child whole) fuel
                ∙ first_round (length whole - 1),
            dfs,
          )
          refl)

-- In a trie of one template of one literal and a verb without a colon, Find also gives it for the
-- path of the literal, a colon, the verb, a colon and any text without a colon, where there is no
-- slash behind the first.
pub find_extra_verb :
    (t : Template) (method l v w : Bytes) (c : ℕ)
    → t.segments ≡ cons (literal l) nil
    → t.verb ≡ c ∷ v
    → Lacks b':' (c ∷ v)
    → Lacks b':' w
    → Lacks b'/' (l ++ b':' ∷ ((c ∷ v) ++ b':' ∷ w))
    → find (add empty method t) method (b'/' ∷ (l ++ b':' ∷ ((c ∷ v) ++ b':' ∷ w))) ≡ some t
unfolding find find_in add or_new_method add_verb leave add_segments bytes_discrete
find_extra_verb t method l v w c hs hv lv lw ls =
    let built : add_segments t.segments (add_verb t) new_node
        ≡ node none
            (child l (node none no_children ((c ∷ v, t) ∷ []) nil_node nil_node) no_children) []
            nil_node nil_node =
      built_from t.segments t.verb hs hv in
    let whole = l ++ b':' ∷ ((c ∷ v) ++ b':' ∷ w) in
    ap (λ (o : Option Node). find_in o whole)
      (put_self method (add_segments t.segments (add_verb t) new_node))
    ∙ ap (λ (n : Node). dfs (split b'/' whole) whole n) built
    ∙ ap
        (λ (cs : List Bytes). dfs cs whole (
          node none
            (child l (node none no_children ((c ∷ v, t) ∷ []) nil_node nil_node) no_children) []
            nil_node nil_node))
        (split_none b'/' whole ls)
    ∙ found_below t l (c ∷ v) w lv lw whole
  where
    put_self : (k : Bytes) (n : Node) → put k n empty k ≡ some n
    put_self k n = ground arith

    built_from :
        (ss : Segments) (x : Bytes)
        → ss ≡ cons (literal l) nil
        → x ≡ c ∷ v
        → add_segments ss (leave x t) new_node
          ≡ node none
              (child l (node none no_children ((c ∷ v, t) ∷ []) nil_node nil_node) no_children)
              []
              nil_node
              nil_node
    built_from ss x a b = rw (a, b) refl
