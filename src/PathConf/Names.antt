-- ===== src/PathConf/Names.antt =====
-- internal/conf/path.go: a valid name has no segment that leads out of a directory.
use ppmmx.Base.{
  ℕ, ◌≡◌, ◌≢◌, refl, ap, ◌∙◌, Bool, true, false, none, List, [], ◌∷◌, ◌++◌, ◌==◌, arith, Bool-cases,
  inl, inr,
}
use ppmmx.PathConf.{
  Name, eqb_name, slash, with_first, split_slash, any_dot_segment, is_valid_path_name,
}

-- The segments "." and "..".
abbrev pub dots : Bool → Name
dots false = b'.' ∷ []
dots true = b'.' ∷ b'.' ∷ []

-- Nothing, or what ends with a slash.
abbrev pub EndsSegment : Name → Type 0
EndsSegment [] = Unit {0}
EndsSegment (c ∷ []) = c ≡ slash
EndsSegment (c ∷ d ∷ ds) = EndsSegment (d ∷ ds)

-- Nothing, or what begins with a slash.
abbrev pub BeginsSegment : Name → Type 0
BeginsSegment [] = Unit {0}
BeginsSegment (c ∷ cs) = c ≡ slash

abbrev tail : List Name → List Name
tail [] = []
tail (s ∷ ss) = ss

any-tail : (ss : List Name) → any_dot_segment (tail ss) ≡ true → any_dot_segment ss ≡ true
unfolding any_dot_segment
any-tail [] h = h
any-tail (s ∷ ss) h = ground arith

split_slash-dots :
    (two : Bool) (b : Name) → BeginsSegment b → any_dot_segment (split_slash (dots two ++ b)) ≡ true
unfolding split_slash any_dot_segment eqb_name
split_slash-dots false [] h = refl
split_slash-dots true [] h = refl
split_slash-dots false (c ∷ cs) h = rw h refl
split_slash-dots true (c ∷ cs) h = rw h refl

tail-with_first : (c : ℕ) (ss : List Name) → tail (with_first c ss) ≡ tail ss
tail-with_first c [] = refl
tail-with_first c (s ∷ ss) = refl

-- The segment stands behind a slash, so it is not the first one.
tail-split_slash :
    (two : Bool) (c : ℕ) (a b : Name)
    → EndsSegment (c ∷ a)
    → BeginsSegment b
    → any_dot_segment (tail (split_slash ((c ∷ a) ++ (dots two ++ b)))) ≡ true
unfolding split_slash
tail-split_slash two c [] b h k = rw h (split_slash-dots two b k)
tail-split_slash two c (d ∷ ds) b h k =
    let rest = tail-split_slash two d ds b h k in
    elim (Bool-cases (c == slash)) [
      | inl same ↦ rw same (any-tail (split_slash ((d ∷ ds) ++ (dots two ++ b))) rest)
      | inr other ↦ rw other (
          ap any_dot_segment (tail-with_first c (split_slash ((d ∷ ds) ++ (dots two ++ b)))) ∙ rest)
    ]

has_dots :
    (two : Bool) (a b : Name)
    → EndsSegment a
    → BeginsSegment b
    → any_dot_segment (split_slash (a ++ (dots two ++ b))) ≡ true
has_dots two [] b h k = split_slash-dots two b k
has_dots two (c ∷ cs) b h k =
    any-tail (split_slash ((c ∷ cs) ++ (dots two ++ b))) (tail-split_slash two c cs b h k)

none_invalid :
    (n : Name) → any_dot_segment (split_slash n) ≡ true → (is_valid_path_name n ≡ none) → ⊥
unfolding is_valid_path_name
none_invalid [] e h = cc
none_invalid (c ∷ cs) e h = ground arith

-- A name that `IsValidPathName` admits has neither "." nor ".." as a segment: wherever one of them
-- stands in it, there is something else than a slash directly before it or directly after it.
pub is_valid_path_name-dots :
    (two : Bool) (a b : Name)
    → EndsSegment a
    → BeginsSegment b
    → is_valid_path_name (a ++ (dots two ++ b)) ≢ none
is_valid_path_name-dots two a b h k = none_invalid (a ++ (dots two ++ b)) (has_dots two a b h k)
