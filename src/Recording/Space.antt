-- ===== src/Recording/Space.antt =====
-- internal/recordcleaner/cleaner.go: how many segments are removed for free space.
use ppmmx.Base.{
  ℕ, ◌+◌, ◌%◌, ◌^◌, ◌≤◌, ◌<◌, ◌≡◌, refl, ap, sym, ◌∙◌, true, false, ◌⊎◌, inl, inr, subst, some,
  List, [], ◌∷◌, ◌++◌, leb, ◌==◌, if◌then◌else◌, All, arith, Bool-cases, append-nil, append_assoc,
}
use ppmmx.Base.Int.{ℤ, pos, ◌-ℤ◌}
use ppmmx.PathConf.{Name, Confs}
use ppmmx.Recording.{Segment, starts_before}
use ppmmx.Recording.Start.{Ordered, IsSorting}
use ppmmx.Recording.Cleaner.{
  Outside, min_free_space_protected_age, candidates, reclaim, reclaim_below,
  enforce_min_free_space_on_root, min_free_space_for_root,
}

abbrev pub total : (Segment → ℕ) → List Segment → ℕ
total size [] = 0
total size (s ∷ ss) = size s + total size ss

-- `gone` is nothing, or what is missing its last segment is too little.
abbrev pub Needed : (Segment → ℕ) → ℕ → ℕ → List Segment → Type 0
Needed size floor free gone =
    (gone ≡ [])
    ⊎ ((before : List Segment) × (last : Segment) × (gone ≡ before ++ (last ∷ []))
        × (free + total size before < floor))

-- `gone` is the shortest front of `sorted` that brings `floor` bytes, or all of it.
abbrev pub ShortestFront : (Segment → ℕ) → ℕ → ℕ → List Segment → List Segment → Type 0
ShortestFront size floor free gone kept =
    ((floor ≤ free + total size gone) ⊎ (kept ≡ [])) × Needed size floor free gone

-- No segment that is kept started before one that is gone.
abbrev pub OldestFirst : List Segment → List Segment → Type 0
OldestFirst gone kept =
    All (λ (g : Segment). All (λ (k : Segment). starts_before k g ≡ false) kept) gone

All-back : (P : Segment → Type 0) (xs ys : List Segment) → All P (xs ++ ys) → All P ys
All-back P [] ys h = h
All-back P (x ∷ xs) ys (h, hs) = All-back P xs ys hs

Ordered-OldestFirst : (gone kept : List Segment) → Ordered (gone ++ kept) → OldestFirst gone kept
Ordered-OldestFirst [] kept o = tt
Ordered-OldestFirst (g ∷ gone) kept (o, os) =
    (All-back _ gone kept o, Ordered-OldestFirst gone kept os)

Needed-more :
    (size : Segment → ℕ) (floor free : ℕ) (s : Segment) (gone : List Segment)
    → free < floor
    → Needed size floor (free + size s) gone
    → Needed size floor free (s ∷ gone)
Needed-more size floor free s gone h (inl e) =
    inr ([], s, ap (λ (g : List Segment). s ∷ g) e, omega arith)
Needed-more size floor free s gone h (inr (before, last, e, k)) =
    inr (s ∷ before, last, ap (λ (g : List Segment). s ∷ g) e, omega arith)

module _ (o : Outside) (confs : Confs) (size : Segment → ℕ)
    (known : (log : List Segment) (s : Segment) → o.file_size log s ≡ some (size s))
    (removable : (log : List Segment) (s : Segment) → o.can_remove log s ≡ true) where
  abbrev pub Front : ℕ → ℕ → List Segment → List Segment → List Segment → Type 0
  Front floor free log sorted log' =
      (gone kept : List Segment) × (sorted ≡ gone ++ kept)
      × (log' ≡ log ++ gone)
      × ShortestFront size floor free gone kept

  reclaim-Front :
      (floor : ℕ) (root : Name) (ss : List Segment) (free : ℕ) (log : List Segment)
      → free + total size ss < 2 ^ 64
      → Front floor free log ss (reclaim o confs floor root free log ss)
  unfolding reclaim
  reclaim-Front floor root [] free log h =
      ([], [], refl, sym (append-nil log), (inr refl, inl refl))
  reclaim-Front floor root (s ∷ ss) free log h = elim (Bool-cases (leb floor free)) [
    | inl e ↦ rw e ([], s ∷ ss, refl, sym (append-nil log), (inl (ground arith), inl refl))
    | inr e ↦ rw e (
        rw (removable log s) (
          rw (known log s) (
            rw (fits (free + size s) (omega arith)) (
              more e
                (reclaim-Front floor root ss (free + size s) (log ++ (s ∷ [])) (omega arith))))))
  ]
    where
      fits : (n : ℕ) → n < 2 ^ 64 → n % 2 ^ 64 ≡ n
      fits n k = omega arith

      more :
          leb floor free ≡ false
          → {log' : List Segment} → Front floor (free + size s) (log ++ (s ∷ [])) ss log'
          → Front floor free log (s ∷ ss) log'
      more e (gone, kept, split, result, (enough, needed)) = (
        s ∷ gone,
        kept,
        ap (λ (g : List Segment). s ∷ g) split,
        result ∙ append_assoc log (s ∷ []) gone,
        (
          elim enough [ inl k ↦ inl (omega arith) | inr k ↦ inr k ],
          Needed-more size floor free s gone (ground arith) needed,
        ),
      )

  abbrev cut_off : ℤ → ℤ
  cut_off now = now -ℤ pos min_free_space_protected_age

  -- Those that may go for free space, in the order in which they go.
  abbrev pub in_order : ℤ → List Segment → List Name → List Segment
  in_order now log names =
      o.sort_segments starts_before (candidates o confs (cut_off now) log names)

  -- What is removed for a root: the oldest candidates, and no more than needed.
  abbrev pub Freed : ℤ → ℕ → List Segment → List Name → List Segment → Type 0
  Freed now free log names log' =
      (gone kept : List Segment) × (in_order now log names ≡ gone ++ kept)
      × (log' ≡ log ++ gone)
      × ShortestFront size (min_free_space_for_root o confs names) free gone kept
      × OldestFirst gone kept

  -- Where sort.Slice sorts, the size of each file is known and each removal succeeds, on a disk with
  -- `free` bytes free that with all candidates are less than 2 ^ 64: for a root the segments removed
  -- are the first candidates in the order of their starts, enough to reach the floor or else all, and
  -- without the last of them the floor is not reached; none that is kept started before one that is
  -- removed.
  pub enforce_min_free_space-Freed :
      (now : ℤ) (log : List Segment) (root : Name) (names : List Name) (free : ℕ)
      → o.disk_free_bytes log root ≡ some free
      → IsSorting (candidates o confs (cut_off now) log names) (in_order now log names)
      → free + total size (in_order now log names) < 2 ^ 64
      → Freed now free log names (enforce_min_free_space_on_root o confs now log root names)
  unfolding enforce_min_free_space_on_root
  enforce_min_free_space-Freed now log root names free e sorting h =
      with_order (on_floor (min_free_space_for_root o confs names))
    where
      sorted : List Segment
      sorted = in_order now log names

      nothing : (floor : ℕ) → floor ≤ free → Front floor free log sorted log
      nothing floor k = ([], sorted, refl, sym (append-nil log), (inl (omega arith), inl refl))

      below :
          (floor : ℕ)
          → Front floor free log sorted
              (if leb floor free then log else reclaim o confs floor root free log sorted)
      below floor = elim (Bool-cases (leb floor free)) [
        | inl k ↦ rw k (nothing floor (ground arith))
        | inr k ↦ rw k (reclaim-Front floor root sorted free log h)
      ]

      on_floor :
          (floor : ℕ)
          → Front floor free log sorted (
              if floor == 0
              then log
              else reclaim_below o confs now floor root names log (o.disk_free_bytes log root))
      on_floor floor = elim (Bool-cases (floor == 0)) [
        | inl k ↦ rw k (nothing floor (ground arith))
        | inr k ↦ rw k (rw e (below floor))
      ]

      with_order :
          {log' : List Segment}
          → Front (min_free_space_for_root o confs names) free log sorted log'
          → Freed now free log names log'
      with_order (gone, kept, split, result, shortest) = (
        gone,
        kept,
        split,
        result,
        shortest,
        Ordered-OldestFirst gone kept (subst Ordered split sorting.ordered),
      )
