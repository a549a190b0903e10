-- ===== src/Tests/Trie.antt =====
-- Runs of the trie, and its theorems there.
use grpcbridge.Base.{◌≡◌, refl, if◌then◌else◌, [], none, some, codes, equals, split, arith}
use grpcbridge.Base.Maps.{empty}
use grpcbridge.HttpRule.Parse.{wildcard, literal, nil, cons, Template}
use grpcbridge.HttpRule.Trie.{trim_slash, add, find}
use grpcbridge.HttpRule.Trie.Single.{matches, parts, find-add}
use grpcbridge.HttpRule.Trie.Verbs.{find_extra_verb}

abbrev users : Template
users = record {
  segments = cons (literal (codes "users")) (cons wildcard nil);
  verb = [];
  tmpl = codes "/users/*";
}

find-add_example :
    (find (add empty (codes "GET") users) (codes "GET") (codes "/users/7") ≡ (
      if matches (parts users.segments) (split b'/' (trim_slash (codes "/users/7")))
      then some users
      else none))
    × (find (add empty (codes "GET") users) (codes "PUT") (codes "/users/7") ≡ (
        if equals (codes "PUT") (codes "GET")
        then find (add empty (codes "GET") users) (codes "GET") (codes "/users/7")
        else none))
find-add_example = find-add users (codes "GET") (codes "PUT") (codes "/users/7") refl

abbrev cancel : Template
cancel = record { segments = cons (literal (codes "a")) nil; verb = codes "b"; tmpl = codes "/a:b" }

find_extra_verb_example :
    find (add empty (codes "GET") cancel) (codes "GET") (codes "/a:b:c") ≡ some cancel
find_extra_verb_example =
    find_extra_verb cancel (codes "GET") (codes "a") [] (codes "c") b'b' refl refl (ground arith)
      (ground arith) (ground arith)
