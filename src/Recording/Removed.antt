-- ===== src/Recording/Removed.antt =====
-- internal/recordcleaner/cleaner.go: which segments a run of the cleaner removes.
use mathlib.Core.List.{Memᴰ}
use ppmmx.Base.{
  ℕ, ◌≡◌, ◌≢◌, refl, ap, sym, subst, ◌∙◌, Bool, true, false, ◌⊎◌, inl, inr, Option, none, some,
  List, [], ◌∷◌, ◌++◌, leb, ◌==◌, if◌then◌else◌, All, arith, Bool-cases, append-nil, append_assoc,
}
use ppmmx.Base.Int.{ℤ, pos, ◌-ℤ◌, ltb_ℤ}
use ppmmx.PathConf.{Name, PathConf, Confs}
use ppmmx.Recording.{Segment, Segments, segments, failed, starts_before}
use ppmmx.Recording.Cleaner.{
  Outside, min_free_space_protected_age, conf_of, segments_of, remove_all, remove_found,
  process_conf, process_paths, reclaimable_found, reclaimable_of, candidates, reclaim,
  reclaim_below, enforce_min_free_space_on_root, min_free_space_for_root, enforce_groups, do_run,
}
use ppmmx.Recording.Found.{
  All-Memᴰ, Memᴰ-All, All-append, KeepsElements, AllFound, IsFileOf, IsFound, find_segments-IsFound,
  latest_from-Memᴰ, reclaimable-All,
}

module _ (o : Outside) (confs : Confs) (now : ℤ) (begun : List Segment) where
  -- A file of the path `name`, found by a walk after `before` was removed since the run began.
  abbrev pub IsOf : List Segment → Name → PathConf → Segment → Type 0
  IsOf before name c s =
      (conf_of o confs name ≡ some c) × IsFileOf (o.walk (begun ++ before) c (some name)) s

  -- A segment that is at least as old as the configuration of its path says.
  abbrev pub IsExpired : Segment → Type 0
  IsExpired s =
      (before : List Segment) × (name : Name) × (c : PathConf) × IsOf before name c s
      × (o.record_delete_after c ≢ 0)
      × (ltb_ℤ (now -ℤ pos (o.record_delete_after c)) s.start ≡ false)

  -- A segment of a path that has one that started later, and is older than the age at which
  -- segments are protected.
  abbrev pub IsReclaimable : Segment → Type 0
  IsReclaimable s =
      (before : List Segment) × (name : Name) × (c : PathConf) × (r : Segment) × IsOf before name c
        s
      × IsOf before name c r
      × (ltb_ℤ s.start r.start ≡ true)
      × (ltb_ℤ s.start (now -ℤ pos min_free_space_protected_age) ≡ true)

  abbrev pub MayGo : Segment → Type 0
  MayGo s = IsExpired s ⊎ IsReclaimable s

  -- What was removed since the run began might go.
  abbrev pub Grown : List Segment → Type 0
  Grown log = (removed : List Segment) × (log ≡ begun ++ removed) × All MayGo removed

  Grown-if :
      (can : Bool) (log : List Segment) (s : Segment)
      → MayGo s
      → Grown log
      → Grown (if can then log ++ (s ∷ []) else log)
  Grown-if true log s h (removed, e, k) = (
    removed ++ (s ∷ []),
    ap (λ (l : List Segment). l ++ (s ∷ [])) e ∙ append_assoc begun removed (s ∷ []),
    All-append MayGo removed (s ∷ []) k (h, tt),
  )
  Grown-if false log s h g = g

  remove_all-Grown :
      (ss log : List Segment) → All MayGo ss → Grown log → Grown (remove_all o confs log ss)
  unfolding remove_all
  remove_all-Grown [] log h g = g
  remove_all-Grown (s ∷ ss) log (h, hs) g =
      remove_all-Grown ss _ hs (Grown-if (o.can_remove log s) log s h g)

  reclaim-Grown :
      (floor : ℕ) (root : Name) (ss : List Segment) (free : ℕ) (log : List Segment)
      → All MayGo ss
      → Grown log
      → Grown (reclaim o confs floor root free log ss)
  unfolding reclaim
  reclaim-Grown floor root [] free log h g = g
  reclaim-Grown floor root (s ∷ ss) free log (h, hs) g = elim (Bool-cases (leb floor free)) [
    | inl e ↦ rw e g
    | inr e ↦ rw e (reclaim-Grown floor root ss _ _ hs (Grown-if (o.can_remove log s) log s h g))
  ]

  module _ (keeps : KeepsElements o.sort_segments) where
    -- What `FindSegments` gives on a walk of that path.
    segments_of-IsFound :
        (log : List Segment) (name : Name) (c : PathConf) (end : Option ℤ)
        → AllFound (IsFound (o.walk log c (some name)) end) (segments_of o confs log c name end)
    segments_of-IsFound log name c end =
        find_segments-IsFound o.sort_segments (o.walk log c (some name)) name end keeps

    found_at :
        (log : List Segment) (name : Name) (c : PathConf) (s : Segment) (g : Grown log)
        → conf_of o confs name ≡ some c
        → IsFileOf (o.walk log c (some name)) s
        → IsOf g.0 name c s
    found_at log name c s (removed, l, k) e f =
        (e, subst (λ (t : List Segment). IsFileOf (o.walk t c (some name)) s) l f)

    process_conf-Grown :
        (log : List Segment) (name : Name) (found : Option PathConf)
        → conf_of o confs name ≡ found
        → Grown log
        → Grown (process_conf o confs now log name found)
    process_conf-Grown log name none e g = g
    process_conf-Grown log name (some c) e g = elim (Bool-cases (o.record_delete_after c == 0)) [
      | inl z ↦ rw z g
      | inr z ↦ rw z (expired (λ k. ground arith) _ (segments_of-IsFound log name c (some end)))
    ]
      where
        end : ℤ
        end = now -ℤ pos (o.record_delete_after c)

        All-MayGo :
            (ss : List Segment)
            → o.record_delete_after c ≢ 0
            → All (IsFound (o.walk log c (some name)) (some end)) ss
            → All MayGo ss
        All-MayGo [] z h = tt
        All-MayGo (s ∷ ss) z ((f, t), hs) =
            (inl (g.0, name, c, found_at log name c s g e f, z, t), All-MayGo ss z hs)

        expired :
            o.record_delete_after c ≢ 0
            → (x : Segments) → AllFound (IsFound (o.walk log c (some name)) (some end)) x
            → Grown (remove_found o confs log x)
        expired z (failed f) h = g
        expired z (segments ss) h = remove_all-Grown ss log (All-MayGo ss z h) g

    process_paths-Grown :
        (names : List Name) (log : List Segment)
        → Grown log
        → Grown (process_paths o confs now log names)
    unfolding process_paths
    process_paths-Grown [] log g = g
    process_paths-Grown (name ∷ names) log g =
        process_paths-Grown names _ (process_conf-Grown log name (conf_of o confs name) refl g)

    reclaimable_found-MayGo :
        (log : List Segment) (name : Name) (c : PathConf) (x : Segments)
        → conf_of o confs name ≡ some c
        → Grown log
        → AllFound (IsFound (o.walk log c (some name)) none) x
        → All MayGo (reclaimable_found (now -ℤ pos min_free_space_protected_age) x)
    reclaimable_found-MayGo log name c (failed f) e g h = tt
    reclaimable_found-MayGo log name c (segments []) e g h = tt
    reclaimable_found-MayGo log name c (segments (s ∷ ss)) e g h =
        let (r, m, l) = latest_from-Memᴰ s ss in
        reclaimable-All MayGo _ _ (s ∷ ss) (λ q mq old past. inr (
          g.0,
          name,
          c,
          r,
          of_path q mq,
          of_path r m,
          subst (λ t. ltb_ℤ q.start t ≡ true) (sym l) past,
          old,
        ))
      where
        of_path : (q : Segment) → Memᴰ q (s ∷ ss) → IsOf g.0 name c q
        of_path q m =
            found_at log name c q g e
              (Memᴰ-All (IsFound (o.walk log c (some name)) none) (s ∷ ss) h q m).0

    reclaimable_of-MayGo :
        (log : List Segment) (name : Name) (found : Option PathConf)
        → conf_of o confs name ≡ found
        → Grown log
        → All MayGo
            (reclaimable_of o confs (now -ℤ pos min_free_space_protected_age) log name found)
    reclaimable_of-MayGo log name none e g = tt
    reclaimable_of-MayGo log name (some c) e g =
        reclaimable_found-MayGo log name c _ e g (segments_of-IsFound log name c none)

    candidates-MayGo :
        (log : List Segment) (names : List Name)
        → Grown log
        → All MayGo (candidates o confs (now -ℤ pos min_free_space_protected_age) log names)
    unfolding candidates
    candidates-MayGo log [] g = tt
    candidates-MayGo log (name ∷ names) g =
        All-append MayGo _ _ (reclaimable_of-MayGo log name (conf_of o confs name) refl g)
          (candidates-MayGo log names g)

    reclaim_below-Grown :
        (floor : ℕ) (root : Name) (names : List Name) (log : List Segment) (free : Option ℕ)
        → Grown log
        → Grown (reclaim_below o confs now floor root names log free)
    reclaim_below-Grown floor root names log none g = g
    reclaim_below-Grown floor root names log (some free) g = elim (Bool-cases (leb floor free)) [
      | inl e ↦ rw e g
      | inr e ↦ rw e (reclaim-Grown floor root _ free log sorted g)
    ]
      where
        sorted : All MayGo (
            o.sort_segments starts_before
              (candidates o confs (now -ℤ pos min_free_space_protected_age) log names))
        sorted =
            All-Memᴰ MayGo _
              (λ s m. Memᴰ-All MayGo _ (candidates-MayGo log names g) s (keeps _ _ s m))

    enforce_on_root-Grown :
        (log : List Segment) (root : Name) (names : List Name)
        → Grown log
        → Grown (enforce_min_free_space_on_root o confs now log root names)
    unfolding enforce_min_free_space_on_root
    enforce_on_root-Grown log root names g =
        elim (Bool-cases (min_free_space_for_root o confs names == 0)) [
          | inl e ↦ rw e g
          | inr e ↦ rw e (reclaim_below-Grown _ root names log (o.disk_free_bytes log root) g)
        ]

    enforce_groups-Grown :
        (groups : List (Name × List Name)) (log : List Segment)
        → Grown log
        → Grown (enforce_groups o confs now log groups)
    unfolding enforce_groups
    enforce_groups-Grown [] log g = g
    enforce_groups-Grown ((root, names) ∷ groups) log g =
        enforce_groups-Grown groups _ (enforce_on_root-Grown log root names g)

    -- Where sort.Slice adds no elements, a run of the cleaner removes, one after the other, only
    -- files that a walk of a path visited in the course of the run: files whose segments start at or
    -- before now less the time to keep of that path's configuration, which is not zero, and files
    -- whose segments start more than ten minutes before now and before another segment of that path.
    pub do_run-Grown : Grown (do_run o confs now begun)
    unfolding do_run
    do_run-Grown =
        enforce_groups-Grown _ _ (process_paths-Grown _ begun ([], sym (append-nil begun), tt))
