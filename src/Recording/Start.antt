-- ===== src/Recording/Start.antt =====
-- internal/recordstore/segment.go: what `FindSegments` gives for an instant at which to start.
use mathlib.Core.List.{Memᴰ}
use ppmmx.Base.{
  ◌≡◌, refl, ap, Bool, true, false, ◌⊎◌, inl, inr, Option, none, some, List, [], ◌∷◌, ◌++◌, All,
  ◌↔◌, arith, Bool-cases,
}
use ppmmx.Base.Int.{ℤ, ltb_ℤ}
use ppmmx.PathConf.{Name, is_valid_path_name}
use ppmmx.Recording.{
  Visit, Segment, starts_before, Segments, segments, gather, containing, from_start, find_segments,
}

-- No segment starts before one that stands in front of it.
abbrev pub Ordered : List Segment → Type 0
Ordered [] = Unit {0}
Ordered (s ∷ ss) = All (λ (r : Segment). starts_before r s ≡ false) ss × Ordered ss

-- What sort.Slice promises for a list: the same elements, in order.
pub record IsSorting (given sorted : List Segment) : Type 0 where
  pub same : (s : Segment) → Memᴰ s given ↔ Memᴰ s sorted
  pub ordered : Ordered sorted

abbrev pub IsStarted : ℤ → Segment → Type 0
IsStarted start s = ltb_ℤ start s.start ≡ false

abbrev pub IsLater : ℤ → Segment → Type 0
IsLater start s = ltb_ℤ start s.start ≡ true

-- `kept` begins with the last segment that starts by `start`.
abbrev pub LastStarted : ℤ → List Segment → List Segment → Type 0
LastStarted start dropped [] = ⊥
LastStarted start dropped (s ∷ ss) =
    All (IsStarted start) dropped × IsStarted start s × All (IsLater start) ss

abbrev pub Split : ℤ → List Segment → Segments → Type 0
Split start sorted answer =
    (dropped kept : List Segment) × (sorted ≡ dropped ++ kept)
    × (answer ≡ segments kept)
    × LastStarted start dropped kept

IsLater-after :
    (start : ℤ) (s r : Segment) → IsLater start s → starts_before r s ≡ false → IsLater start r
IsLater-after start s r h k = ground arith

All-IsLater :
    (start : ℤ) (s : Segment) (ss : List Segment)
    → IsLater start s
    → All (λ (r : Segment). starts_before r s ≡ false) ss
    → All (IsLater start) ss
All-IsLater start s [] h k = tt
All-IsLater start s (r ∷ ss) h (k, ks) = (IsLater-after start s r h k, All-IsLater start s ss h ks)

containing-Split :
    (start : ℤ) (s : Segment) (ss : List Segment)
    → Ordered (s ∷ ss)
    → IsStarted start s
    → Split start (s ∷ ss) (containing start (s ∷ ss))
unfolding containing
containing-Split start s [] o h = ([], s ∷ [], refl, rw h refl, (tt, h, tt))
containing-Split start s (r ∷ ss) (o, os) h = elim (Bool-cases (ltb_ℤ start r.start)) [
  | inl e ↦ ([], s ∷ r ∷ ss, refl, rw h (rw e refl), (tt, h, (e, All-IsLater start r ss e os.0)))
  | inr e ↦ step (containing-Split start r ss os e) e
]
  where
    step :
        Split start (r ∷ ss) (containing start (r ∷ ss))
        → ltb_ℤ start r.start ≡ false
        → Split start (s ∷ r ∷ ss) (containing start (s ∷ r ∷ ss))
    step (dropped, kept, split, answer, leads) e = (
      s ∷ dropped,
      kept,
      ap (λ (xs : List Segment). s ∷ xs) split,
      rw h (rw e answer),
      push_front kept leads,
    )
      where
        push_front :
            (kept : List Segment)
            → LastStarted start dropped kept
            → LastStarted start (s ∷ dropped) kept
        push_front [] l = l
        push_front (k ∷ ks) (d, x, l) = ((h, d), x, l)

-- All there is, where nothing starts by `start`.
abbrev pub StartsAt : ℤ → List Segment → Segments → Type 0
StartsAt start sorted answer =
    Split start sorted answer ⊎ ((answer ≡ segments sorted) × All (IsLater start) sorted)

from_start-StartsAt :
    (start : ℤ) (s : Segment) (ss : List Segment)
    → Ordered (s ∷ ss)
    → StartsAt start (s ∷ ss) (from_start (some start) (s ∷ ss))
unfolding from_start
from_start-StartsAt start s ss o = elim (Bool-cases (ltb_ℤ start s.start)) [
  | inl e ↦ inr (rw e refl, (e, All-IsLater start s ss e o.0))
  | inr e ↦ inl (rw e (containing-Split start s ss o e))
]

-- For a valid name whose walk finds a segment, where sort.Slice sorts: `FindSegments` with an instant
-- to start at does not fail. Of the segments in the order of their starts it gives those from the
-- last one on that starts at that instant or before, and all of them if there is none.
pub find_segments-StartsAt :
    (sort_slice : (Segment → Segment → Bool) → List Segment → List Segment) (visits : List Visit)
    (name : Name) (start : ℤ) (end : Option ℤ) (s : Segment) (ss : List Segment)
    → is_valid_path_name name ≡ none
    → gather end visits ≡ some (s ∷ ss)
    → IsSorting (s ∷ ss) (sort_slice starts_before (s ∷ ss))
    → StartsAt start
        (sort_slice starts_before (s ∷ ss))
        (find_segments sort_slice visits name (some start) end)
unfolding find_segments
find_segments-StartsAt sort_slice visits name start end s ss valid g sorting =
    rw valid (rw g (by_sorted (sort_slice starts_before (s ∷ ss)) sorting))
  where
    by_sorted :
        (sorted : List Segment)
        → IsSorting (s ∷ ss) sorted
        → StartsAt start sorted (from_start (some start) sorted)
    by_sorted [] i = elim ((i.same s).0 (Memᴰ.head refl)) [ ]
    by_sorted (r ∷ rs) i = from_start-StartsAt start r rs i.ordered
