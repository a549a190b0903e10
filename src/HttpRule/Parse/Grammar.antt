-- ===== src/HttpRule/Parse/Grammar.antt =====
-- internal/httprule/httprule.bnf: the texts of segments and templates.
use grpcbridge.Base.{◌≡◌, List, [], ◌∷◌, ◌++◌, Bool, true, false, Bytes, codes, All}
use grpcbridge.HttpRule.Chars.{check_ident, IsLiteral}
use grpcbridge.HttpRule.Parse.{
  Segment, Segments, wildcard, multi_wildcard, variable, literal, nil, cons,
}

abbrev pub IsIdent : Bytes → Type 0
IsIdent c = check_ident c ≡ true

-- The components behind the first one of a FieldPath.
abbrev pub dots : List Bytes → Bytes
dots [] = []
dots (c ∷ cs) = b'.' ∷ (c ++ dots cs)

-- The Boolean says that the text ends with `**`.
mutual
  pub data IsSegment : Segment → Bool → Bytes → Type 0 where
    star : IsSegment wildcard false (codes "*")
    stars : IsSegment multi_wildcard true (codes "**")
    text : (l : Bytes) → IsLiteral l → IsSegment (literal l) false l
    short :
        (c : Bytes) (cs : List Bytes)
        → All IsIdent (c ∷ cs)
        → IsSegment
            (variable (c ∷ cs) (cons wildcard nil))
            false
            (b'{' ∷ ((c ++ dots cs) ++ codes "}"))
    long :
        (c : Bytes) (cs : List Bytes) (ss : Segments) (m : Bool) (b : Bytes)
        → All IsIdent (c ∷ cs)
        → AreSegments ss m b
        → IsSegment (variable (c ∷ cs) ss) m (b'{' ∷ ((c ++ dots cs) ++ (b'=' ∷ (b ++ codes "}"))))

  -- Only the last segment may end with `**`.
  pub data AreSegments : Segments → Bool → Bytes → Type 0 where
    one : (s : Segment) (m : Bool) (b : Bytes) → IsSegment s m b → AreSegments (cons s nil) m b
    more :
        (s : Segment) (ss : Segments) (m : Bool) (b bs : Bytes)
        → IsSegment s false b
        → AreSegments ss m bs
        → AreSegments (cons s ss) m (b ++ b'/' ∷ bs)

-- The text behind the leading slash.
pub data IsTemplate : Segments → Bytes → Bytes → Type 0 where
  plain : (ss : Segments) (m : Bool) (b : Bytes) → AreSegments ss m b → IsTemplate ss [] b
  with_colon :
      (ss : Segments) (m : Bool) (b verb : Bytes)
      → AreSegments ss m b
      → IsLiteral verb
      → IsTemplate ss verb (b ++ b':' ∷ verb)
