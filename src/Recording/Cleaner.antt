-- ===== src/Recording/Cleaner.antt =====
-- internal/recordcleaner/cleaner.go: the removal of recorded segments, by age and for free space.
-- The segments that were removed, in order, are the state that the file system is asked in; that
-- directories without files are removed is left out.
use ppmmx.Base.{
  ℕ, ◌+◌, ◌*◌, ◌/◌, ◌%◌, ◌^◌, Bool, not, ◌&&◌, Option, none, some, List, [], ◌∷◌, ◌++◌, ltb, leb,
  ◌==◌, if◌then◌else◌,
}
use ppmmx.Base.Int.{ℤ, pos, ◌-ℤ◌, ltb_ℤ}
use ppmmx.PathConf.{
  Name, PathConf, Confs, Found, found, invalid_name, not_configured, eqb_name, find_path_conf,
}
use ppmmx.Recording.{
  Visit, Segment, Segments, segments, failed, starts_before, find_segments,
  find_all_paths_with_segments,
}

-- The libraries and the file system, and the fields of a configuration that are read here.
pub record Outside : Type 0 where
  pub submatch : ℕ → Name → Option (List Name)
  pub sort_confs : (PathConf → PathConf → Bool) → List PathConf → List PathConf
  pub sort_segments : (Segment → Segment → Bool) → List Segment → List Segment
  pub sort_strings : List Name → List Name
  pub walk : List Segment → PathConf → Option Name → List Visit
  pub can_remove : List Segment → Segment → Bool
  pub file_size : List Segment → Segment → Option ℕ
  pub disk_free_bytes : List Segment → Name → Option ℕ
  pub common_path : PathConf → Name → Name
  pub record_delete_after : PathConf → ℕ
  pub record_min_free_space : PathConf → ℕ
  pub any_order : List (Name × List Name) → List (Name × List Name)

abbrev second : ℕ
second = 1000000000

-- minFreeSpaceProtectedAge
abbrev pub min_free_space_protected_age : ℕ
min_free_space_protected_age = 10 * 60 * second

abbrev conf_of_found : Found → Option PathConf
conf_of_found (found c m) = some c
conf_of_found (invalid_name e) = none
conf_of_found not_configured = none

unfoldable pub latest_from : ℤ → List Segment → ℤ
latest_from latest [] = latest
latest_from latest (s ∷ ss) = latest_from (if ltb_ℤ latest s.start then s.start else latest) ss

-- Those that are old, and not the latest of their path.
unfoldable pub reclaimable : ℤ → ℤ → List Segment → List Segment
reclaimable cutoff latest [] = []
reclaimable cutoff latest (s ∷ ss) =
    let rest = reclaimable cutoff latest ss in
    if ltb_ℤ s.start cutoff && ltb_ℤ s.start latest then s ∷ rest else rest

abbrev pub reclaimable_found : ℤ → Segments → List Segment
reclaimable_found cutoff (failed e) = []
reclaimable_found cutoff (segments []) = []
reclaimable_found cutoff (segments (s ∷ ss)) = reclaimable cutoff (latest_from s.start ss) (s ∷ ss)

abbrev or_same : Option ℕ → ℕ → ℕ
or_same none free = free
or_same (some n) free = n

-- rootToPaths[root] = append(rootToPaths[root], name)
unfoldable pub add_to_root : Name → Name → List (Name × List Name) → List (Name × List Name)
add_to_root root name [] = (root, name ∷ []) ∷ []
add_to_root root name ((r, names) ∷ groups) =
    let rest = add_to_root root name groups in
    if eqb_name r root then (r, names ++ (name ∷ [])) ∷ groups else (r, names) ∷ rest

abbrev unless_empty : Name → Name → List (Name × List Name) → List (Name × List Name)
unless_empty [] name groups = groups
unless_empty (b ∷ bs) name groups = add_to_root (b ∷ bs) name groups

module _ (o : Outside) (confs : Confs) where
  abbrev shorter : ℕ → ℕ → ℕ
  shorter interval after =
      if not (after == 0) && ltb (after / 2) interval then after / 2 else interval

  unfoldable pub interval_from : ℕ → Confs → ℕ
  interval_from interval [] = interval
  interval_from interval ((key, c) ∷ cs) =
      interval_from (shorter interval (o.record_delete_after c)) cs

  abbrev pub clean_interval : ℕ
  clean_interval = interval_from (30 * 60 * second) confs

  -- The configuration of `FindPathConf`, or `none` for an error.
  abbrev pub conf_of : Name → Option PathConf
  conf_of name = conf_of_found (find_path_conf o.submatch o.sort_confs confs name)

  abbrev pub segments_of : List Segment → PathConf → Name → Option ℤ → Segments
  segments_of log c name end =
      find_segments o.sort_segments (o.walk log c (some name)) name none end

  -- os.Remove of each
  unfoldable pub remove_all : List Segment → List Segment → List Segment
  remove_all log [] = log
  remove_all log (s ∷ ss) =
      let log' = if o.can_remove log s then log ++ (s ∷ []) else log in remove_all log' ss

  abbrev pub remove_found : List Segment → Segments → List Segment
  remove_found log (failed e) = log
  remove_found log (segments ss) = remove_all log ss

  abbrev pub delete_expired_segments : ℤ → List Segment → Name → PathConf → List Segment
  delete_expired_segments now log name c =
      remove_found log (segments_of log c name (some (now -ℤ pos (o.record_delete_after c))))

  abbrev pub process_conf : ℤ → List Segment → Name → Option PathConf → List Segment
  process_conf now log name none = log
  process_conf now log name (some c) =
      if o.record_delete_after c == 0 then log else delete_expired_segments now log name c

  abbrev pub process_path : ℤ → List Segment → Name → List Segment
  process_path now log name = process_conf now log name (conf_of name)

  unfoldable pub process_paths : ℤ → List Segment → List Name → List Segment
  process_paths now log [] = log
  process_paths now log (name ∷ names) = process_paths now (process_path now log name) names

  abbrev pub higher_floor : Option PathConf → ℕ → ℕ
  higher_floor none floor = floor
  higher_floor (some c) floor =
      if ltb floor (o.record_min_free_space c) then o.record_min_free_space c else floor

  unfoldable pub floor_from : ℕ → List Name → ℕ
  floor_from floor [] = floor
  floor_from floor (name ∷ names) = floor_from (higher_floor (conf_of name) floor) names

  abbrev pub min_free_space_for_root : List Name → ℕ
  min_free_space_for_root names = floor_from 0 names

  abbrev pub reclaimable_of : ℤ → List Segment → Name → Option PathConf → List Segment
  reclaimable_of cutoff log name none = []
  reclaimable_of cutoff log name (some c) = reclaimable_found cutoff (segments_of log c name none)

  unfoldable pub candidates : ℤ → List Segment → List Name → List Segment
  candidates cutoff log [] = []
  candidates cutoff log (name ∷ names) =
      reclaimable_of cutoff log name (conf_of name) ++ candidates cutoff log names

  -- The free space after the segment of that size was removed.
  abbrev pub free_after : List Segment → Name → Option ℕ → ℕ → ℕ
  free_after log root (some size) free = (free + size) % 2 ^ 64
  free_after log root none free = or_same (o.disk_free_bytes log root) free

  -- The loop that removes the candidates until `floor` bytes are free.
  unfoldable pub reclaim : ℕ → Name → ℕ → List Segment → List Segment → List Segment
  reclaim floor root free log [] = log
  reclaim floor root free log (s ∷ ss) =
      let removed = o.can_remove log s in
      let log' = if removed then log ++ (s ∷ []) else log in
      let free' = if removed then free_after log' root (o.file_size log s) free else free in
      let rest = reclaim floor root free' log' ss in if leb floor free then log else rest

  abbrev pub reclaim_below : ℤ → ℕ → Name → List Name → List Segment → Option ℕ → List Segment
  reclaim_below now floor root names log none = log
  reclaim_below now floor root names log (some free) =
      let sorted =
        o.sort_segments starts_before
          (candidates (now -ℤ pos min_free_space_protected_age) log names) in
      if leb floor free then log else reclaim floor root free log sorted

  unfoldable pub enforce_min_free_space_on_root : ℤ → List Segment → Name → List Name → List Segment
  enforce_min_free_space_on_root now log root names =
      let floor = min_free_space_for_root names in
      if floor == 0
      then log
      else reclaim_below now floor root names log (o.disk_free_bytes log root)

  -- `pathRoot`, and the skip of an empty one.
  abbrev pub add_by_root :
      Name → Option PathConf → List (Name × List Name) → List (Name × List Name)
  add_by_root name none groups = groups
  add_by_root name (some c) groups = unless_empty (o.common_path c name) name groups

  unfoldable pub by_root : List Name → List (Name × List Name) → List (Name × List Name)
  by_root [] groups = groups
  by_root (name ∷ names) groups = by_root names (add_by_root name (conf_of name) groups)

  unfoldable pub enforce_groups : ℤ → List Segment → List (Name × List Name) → List Segment
  enforce_groups now log [] = log
  enforce_groups now log ((root, names) ∷ groups) =
      enforce_groups now (enforce_min_free_space_on_root now log root names) groups

  abbrev pub enforce_min_free_space : ℤ → List Segment → List Name → List Segment
  enforce_min_free_space now log names = enforce_groups now log (o.any_order (by_root names []))

  -- `doRun`: the segments that are removed then, after those of `log`.
  unfoldable pub do_run : ℤ → List Segment → List Segment
  do_run now log =
      let names = find_all_paths_with_segments o.submatch o.sort_strings (o.walk log) confs in
      enforce_min_free_space now (process_paths now log names) names
