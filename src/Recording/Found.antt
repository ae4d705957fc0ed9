-- ===== src/Recording/Found.antt =====
-- internal/recordstore/segment.go and internal/recordcleaner/cleaner.go: the segments that are
-- found by an end, and those that are old and not the latest.
use mathlib.Core.List.{Memᴰ}
use ppmmx.Base.{
  ◌≡◌, refl, sym, subst, Bool, true, false, ◌&&◌, inl, inr, Option, none, some, List, [], ◌∷◌, ◌++◌,
  if◌then◌else◌, All, Bool-cases,
}
use ppmmx.Base.Int.{ℤ, ltb_ℤ}
use ppmmx.PathConf.{Name, NameError, is_valid_path_name}
use ppmmx.Recording.{
  Visit, visited, walk_error, Decoded, Segment, starts_before, Segments, segments, failed, gather,
  and_segment, from_start, after_walk, unless_bad_name, find_segments,
}
use ppmmx.Recording.Cleaner.{latest_from, reclaimable}

pub All-Memᴰ :
    (P : Segment → Type 0) (ss : List Segment) → ((s : Segment) → Memᴰ s ss → P s) → All P ss
All-Memᴰ P [] f = tt
All-Memᴰ P (s ∷ ss) f = (f s (Memᴰ.head refl), All-Memᴰ P ss (λ r m. f r (Memᴰ.tail m)))

pub Memᴰ-All :
    (P : Segment → Type 0) (ss : List Segment) → All P ss → (s : Segment) → Memᴰ s ss → P s
Memᴰ-All P [] h s m = elim m [ ]
Memᴰ-All P (r ∷ ss) (h, hs) s (Memᴰ.head e) = subst P (sym e) h
Memᴰ-All P (r ∷ ss) (h, hs) s (Memᴰ.tail m) = Memᴰ-All P ss hs s m

pub All-append :
    (P : Segment → Type 0) (xs ys : List Segment) → All P xs → All P ys → All P (xs ++ ys)
All-append P [] ys h k = k
All-append P (x ∷ xs) ys (h, hs) k = (h, All-append P xs ys hs k)

-- The result of a sort has no other elements.
abbrev pub KeepsElements : ((Segment → Segment → Bool) → List Segment → List Segment) → Type 0
KeepsElements sort =
    (less : Segment → Segment → Bool) (given : List Segment) (s : Segment)
    → Memᴰ s (sort less given)
    → Memᴰ s given

abbrev pub AllFound : (Segment → Type 0) → Segments → Type 0
AllFound P (failed e) = Unit {0}
AllFound P (segments ss) = All P ss

abbrev pub InTime : Option ℤ → Segment → Type 0
InTime none s = Unit {0}
InTime (some end) s = ltb_ℤ end s.start ≡ false

-- A file that was visited and whose name was decoded.
abbrev pub IsFileOf : List Visit → Segment → Type 0
IsFileOf visits s = (d : Decoded) × Memᴰ (visited s.fpath (some d)) visits × (s.start ≡ d.start)

-- A visited file that starts in time.
abbrev pub IsFound : List Visit → Option ℤ → Segment → Type 0
IsFound visits end s = IsFileOf visits s × InTime end s

abbrev AllGathered : List Visit → Option ℤ → Option (List Segment) → Type 0
AllGathered visits end none = Unit {0}
AllGathered visits end (some ss) = All (IsFound visits end) ss

All-IsFound-tail :
    (v : Visit) (visits : List Visit) (end : Option ℤ) (ss : List Segment)
    → All (IsFound visits end) ss
    → All (IsFound (v ∷ visits) end) ss
All-IsFound-tail v visits end [] h = tt
All-IsFound-tail v visits end (s ∷ ss) (((d, m, e), t), hs) =
    (((d, Memᴰ.tail m, e), t), All-IsFound-tail v visits end ss hs)

and_segment-IsFound :
    (visits : List Visit) (end : Option ℤ) (fpath : Name) (d : Option Decoded) (ss : List Segment)
    → All (IsFound visits end) ss
    → All (IsFound (visited fpath d ∷ visits) end) (and_segment end fpath d ss)
and_segment-IsFound visits end fpath none ss h = All-IsFound-tail _ visits end ss h
and_segment-IsFound visits none fpath (some d) ss h =
    (((d, Memᴰ.head refl, refl), tt), All-IsFound-tail _ visits none ss h)
and_segment-IsFound visits (some end) fpath (some d) ss h = elim (Bool-cases (ltb_ℤ end d.start)) [
  | inl e ↦ rw e (All-IsFound-tail _ visits (some end) ss h)
  | inr e ↦ rw e (((d, Memᴰ.head refl, refl), e), All-IsFound-tail _ visits (some end) ss h)
]

gather-IsFound : (end : Option ℤ) (vs : List Visit) → AllGathered vs end (gather end vs)
unfolding gather
gather-IsFound end [] = tt
gather-IsFound end (walk_error ∷ vs) = tt
gather-IsFound end (visited fpath d ∷ vs) = by_rest (gather end vs) (gather-IsFound end vs)
  where
    by_rest :
        (rest : Option (List Segment))
        → AllGathered vs end rest
        → AllGathered
            (visited fpath d ∷ vs)
            end
            (elim rest [ none ↦ none | some ss ↦ some (and_segment end fpath d ss) ])
    by_rest none h = tt
    by_rest (some ss) h = and_segment-IsFound vs end fpath d ss h

pub find_segments-IsFound :
    (sort : (Segment → Segment → Bool) → List Segment → List Segment) (visits : List Visit)
    (name : Name) (end : Option ℤ)
    → KeepsElements sort
    → AllFound (IsFound visits end) (find_segments sort visits name none end)
unfolding find_segments from_start
find_segments-IsFound sort visits name end keeps =
    by_name (is_valid_path_name name) _ (by_walk (gather end visits) (gather-IsFound end visits))
  where
    by_walk :
        (g : Option (List Segment))
        → AllGathered visits end g
        → AllFound (IsFound visits end) (after_walk (sort starts_before) none g)
    by_walk none h = tt
    by_walk (some []) h = tt
    by_walk (some (s ∷ ss)) h =
        All-Memᴰ (IsFound visits end) _
          (λ r m. Memᴰ-All (IsFound visits end) (s ∷ ss) h r (keeps starts_before (s ∷ ss) r m))

    by_name :
        (e : Option NameError) (x : Segments)
        → AllFound (IsFound visits end) x
        → AllFound (IsFound visits end) (unless_bad_name e x)
    by_name none x h = h
    by_name (some e) x h = tt

pub latest_from-Memᴰ :
    (s : Segment) (ss : List Segment)
    → (r : Segment) × Memᴰ r (s ∷ ss) × (r.start ≡ latest_from s.start ss)
unfolding latest_from
latest_from-Memᴰ s [] = (s, Memᴰ.head refl, refl)
latest_from-Memᴰ s (r ∷ ss) = elim (Bool-cases (ltb_ℤ s.start r.start)) [
  | inl e ↦ let (q, m, k) = latest_from-Memᴰ r ss in (q, Memᴰ.tail m, rw e k)
  | inr e ↦ let (q, m, k) = latest_from-Memᴰ s ss in (q, past m, rw e k)
]
  where
    past : {q : Segment} → Memᴰ q (s ∷ ss) → Memᴰ q (s ∷ r ∷ ss)
    past (Memᴰ.head e) = Memᴰ.head e
    past (Memᴰ.tail m) = Memᴰ.tail (Memᴰ.tail m)

pub reclaimable-All :
    (P : Segment → Type 0) (cutoff latest : ℤ) (ss : List Segment)
    → ((s : Segment) → Memᴰ s ss → ltb_ℤ s.start cutoff ≡ true → ltb_ℤ s.start latest ≡ true → P s)
    → All P (reclaimable cutoff latest ss)
unfolding reclaimable
reclaimable-All P cutoff latest [] f = tt
reclaimable-All P cutoff latest (s ∷ ss) f =
    by_tests (ltb_ℤ s.start cutoff) (ltb_ℤ s.start latest) _ (f s (Memᴰ.head refl))
      (reclaimable-All P cutoff latest ss (λ r m. f r (Memᴰ.tail m)))
  where
    by_tests :
        (old past : Bool) (rest : List Segment)
        → (old ≡ true → past ≡ true → P s)
        → All P rest
        → All P (if old && past then s ∷ rest else rest)
    by_tests true true rest p h = (p refl refl, h)
    by_tests true false rest p h = h
    by_tests false past rest p h = h
