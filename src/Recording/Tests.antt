-- ===== src/Recording/Tests.antt =====
-- internal/recordstore and internal/recordcleaner on a concrete file system: one path, live, with
-- three segments of 30 bytes that start after 1000, 2000 and 9990 seconds, and 50 bytes free.
use mathlib.Core.List.{Memᴰ}
use ppmmx.Base.{
  ℕ, ◌+◌, ◌*◌, ◌<◌, ◌^◌, sym, subst, ◌≡◌, refl, Bool, true, Option, none, some, List, [], ◌∷◌, ◌↔◌,
  if◌then◌else◌, arith, Bool-cases, inl, inr,
}
use ppmmx.Base.Int.{ℤ, pos, ◌-ℤ◌}
use ppmmx.PathConf.{
  Name, PathConf, Confs, eqb_name, is_valid_path_name, is_path_char, all_path_chars, split_slash,
  any_dot_segment, lookup_conf, find_path_conf,
}
use ppmmx.Recording.{
  Visit, visited, Segment, starts_before, gather, from_start, find_segments, insert_name,
  fixed_path_has_segments, find_path_names, find_all_paths_with_segments,
}
use ppmmx.Recording.Start.{IsSorting, StartsAt, find_segments-StartsAt}
use ppmmx.Recording.Found.{KeepsElements}
use ppmmx.Recording.Cleaner.{
  Outside, min_free_space_protected_age, remove_all, process_paths, floor_from, latest_from,
  reclaimable, candidates, reclaim, enforce_min_free_space_on_root, add_to_root, by_root,
  enforce_groups, do_run,
}
use ppmmx.Recording.Removed.{Grown, do_run-Grown}
use ppmmx.Recording.Space.{total, in_order, Freed, enforce_min_free_space-Freed}

module _ (less : Segment → Segment → Bool) where
  unfoldable insert_sorted : Segment → List Segment → List Segment
  insert_sorted x [] = x ∷ []
  insert_sorted x (y ∷ ys) =
      let rest = insert_sorted x ys in if less y x then y ∷ rest else x ∷ y ∷ ys

  unfoldable insertion_sort : List Segment → List Segment
  insertion_sort [] = []
  insertion_sort (x ∷ xs) = insert_sorted x (insertion_sort xs)

  swap : {s x y : Segment} {ys : List Segment} → Memᴰ s (x ∷ y ∷ ys) → Memᴰ s (y ∷ x ∷ ys)
  swap (Memᴰ.head e) = Memᴰ.tail (Memᴰ.head e)
  swap (Memᴰ.tail (Memᴰ.head e)) = Memᴰ.head e
  swap (Memᴰ.tail (Memᴰ.tail m)) = Memᴰ.tail (Memᴰ.tail m)

  under :
      {s y : Segment} {xs ys : List Segment}
      → (Memᴰ s xs → Memᴰ s ys)
      → Memᴰ s (y ∷ xs)
      → Memᴰ s (y ∷ ys)
  under f (Memᴰ.head e) = Memᴰ.head e
  under f (Memᴰ.tail m) = Memᴰ.tail (f m)

  insert_sorted-Memᴰ :
      (s x : Segment) (ys : List Segment) → Memᴰ s (insert_sorted x ys) ↔ Memᴰ s (x ∷ ys)
  unfolding insert_sorted
  insert_sorted-Memᴰ s x [] = (λ m. m, λ m. m)
  insert_sorted-Memᴰ s x (y ∷ ys) = elim (Bool-cases (less y x)) [
    | inl e ↦ rw e (
        let (to, from) = insert_sorted-Memᴰ s x ys in
        (λ m. swap (under to m), λ m. under from (swap m)))
    | inr e ↦ rw e (λ m. m, λ m. m)
  ]

  sort-Memᴰ : (s : Segment) (xs : List Segment) → Memᴰ s (insertion_sort xs) ↔ Memᴰ s xs
  unfolding insertion_sort
  sort-Memᴰ s [] = (λ m. m, λ m. m)
  sort-Memᴰ s (x ∷ xs) =
      let (to, from) = sort-Memᴰ s xs in
      let (to_front, from_front) = insert_sorted-Memᴰ s x (insertion_sort xs) in
      (λ m. under to (to_front m), λ m. from_front (under from m))

insertion_sort-KeepsElements : KeepsElements insertion_sort
insertion_sort-KeepsElements less given s m = (sort-Memᴰ less s given).0 m

abbrev second : ℕ
second = 1000000000

abbrev live : Name
live = b'l' ∷ b'i' ∷ b'v' ∷ b'e' ∷ []

abbrev live_conf : PathConf
live_conf = record { name = live; regexp = none; reloadable = 0; fixed = 0 }

abbrev confs : Confs
confs = (live, live_conf) ∷ []

abbrev at : ℕ → Segment
at n = record { fpath = n ∷ []; start = pos (n * second) }

abbrev visit_at : ℕ → Visit
visit_at n = visited (n ∷ []) (some (record { path = []; start = pos (n * second) }))

-- The oldest file is gone when anything was removed.
abbrev files : List Segment → PathConf → Option Name → List Visit
files [] c n = visit_at 9990 ∷ visit_at 1000 ∷ visit_at 2000 ∷ []
files (s ∷ ss) c n = visit_at 9990 ∷ visit_at 2000 ∷ []

abbrev disk : Outside
disk = record {
  submatch = λ r name. none;
  sort_confs = λ less cs. cs;
  sort_segments = insertion_sort;
  sort_strings = λ names. names;
  walk = files;
  can_remove = λ log s. true;
  file_size = λ log s. some 30;
  disk_free_bytes = λ log root. some 50;
  common_path = λ c name. name;
  record_delete_after = λ c. 8500 * second;
  record_min_free_space = λ c. 100;
  any_order = λ groups. groups;
}

abbrev now : ℤ
now = pos (10000 * second)

one_expires_one_is_reclaimed : do_run disk confs now [] ≡ at 1000 ∷ at 2000 ∷ []
unfolding do_run find_all_paths_with_segments find_path_names fixed_path_has_segments insert_name
    process_paths find_path_conf lookup_conf eqb_name find_segments is_valid_path_name is_path_char
    all_path_chars split_slash any_dot_segment gather from_start insertion_sort insert_sorted ◌-ℤ◌
    remove_all enforce_groups by_root add_to_root enforce_min_free_space_on_root floor_from
    candidates reclaimable latest_from reclaim
one_expires_one_is_reclaimed = refl

do_run-Grown_example : Grown disk confs now [] (do_run disk confs now [])
do_run-Grown_example = do_run-Grown disk confs now [] insertion_sort-KeepsElements

live_valid : is_valid_path_name live ≡ none
unfolding is_valid_path_name is_path_char all_path_chars split_slash any_dot_segment eqb_name
live_valid = refl

gathered : gather none (files [] live_conf none) ≡ some (at 9990 ∷ at 1000 ∷ at 2000 ∷ [])
unfolding gather
gathered = refl

abbrev all_three : List Segment
all_three = at 9990 ∷ at 1000 ∷ at 2000 ∷ []

three_sorted : IsSorting all_three (insertion_sort starts_before all_three)
unfolding insertion_sort insert_sorted
three_sorted = record {
  same = λ s. ((sort-Memᴰ starts_before s all_three).1, (sort-Memᴰ starts_before s all_three).0);
  ordered = ((refl, (refl, tt)), ((refl, tt), (tt, tt)));
}

find_segments-StartsAt_example :
    StartsAt (pos (1500 * second)) (insertion_sort starts_before all_three) (
      find_segments insertion_sort (files [] live_conf none) live (some (pos (1500 * second))) none)
find_segments-StartsAt_example =
    find_segments-StartsAt insertion_sort (files [] live_conf none) live (pos (1500 * second)) none
      (at 9990) (at 1000 ∷ at 2000 ∷ []) live_valid gathered three_sorted

two_candidates :
    candidates disk confs (now -ℤ pos min_free_space_protected_age) [] (live ∷ [])
    ≡ at 1000 ∷ at 2000 ∷ []
unfolding find_path_conf lookup_conf eqb_name find_segments is_valid_path_name is_path_char
    all_path_chars split_slash any_dot_segment gather from_start insertion_sort insert_sorted ◌-ℤ◌
    candidates reclaimable latest_from
two_candidates = refl

two_sorted :
    IsSorting (at 1000 ∷ at 2000 ∷ []) (insertion_sort starts_before (at 1000 ∷ at 2000 ∷ []))
unfolding insertion_sort insert_sorted
two_sorted = record {
  same = λ s. let (to, from) = sort-Memᴰ starts_before s (at 1000 ∷ at 2000 ∷ []) in (from, to);
  ordered = ((refl, tt), (tt, tt));
}

candidates_sorted :
    IsSorting
      (candidates disk confs (now -ℤ pos min_free_space_protected_age) [] (live ∷ []))
      (in_order disk confs (λ s. 30) (λ log s. refl) (λ log s. refl) now [] (live ∷ []))
candidates_sorted =
    subst (λ cs. IsSorting cs (insertion_sort starts_before cs)) (sym two_candidates) two_sorted

space_of_all :
    50
      + total
          (λ s. 30)
          (in_order disk confs (λ s. 30) (λ log s. refl) (λ log s. refl) now [] (live ∷ []))
    < 2 ^ 64
unfolding insertion_sort insert_sorted
space_of_all = rw two_candidates (omega arith)

enforce_min_free_space-Freed_example :
    Freed disk confs
      (λ s. 30)
      (λ log s. refl)
      (λ log s. refl)
      now
      50
      []
      (live ∷ [])
      (enforce_min_free_space_on_root disk confs now [] live (live ∷ []))
enforce_min_free_space-Freed_example =
    enforce_min_free_space-Freed disk confs (λ s. 30) (λ log s. refl) (λ log s. refl) now [] live
      (live ∷ []) 50 refl candidates_sorted space_of_all
