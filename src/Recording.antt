-- ===== src/Recording.antt =====
-- internal/recordstore/segment.go: the recorded segments that the file system has. Instants are
-- nanoseconds; a file name is the list of its bytes. What filepath.WalkDir visits, with what
-- `Path.Decode` reads off each file name, is a parameter, and so are the sorts.
pub mod Start
pub mod Cleaner
pub mod Found
pub mod Removed
pub mod Space
mod Tests
use ppmmx.Base.{ℕ, Bool, true, false, not, ◌&&◌, Option, none, some, List, [], ◌∷◌, if◌then◌else◌}
use ppmmx.Base.Int.{ℤ, ltb_ℤ}
use ppmmx.PathConf.{Name, PathConf, Confs, NameError, eqb_name, is_valid_path_name, conf_submatch}

-- recordstore.Path, as decoded
pub record Decoded : Type 0 where
  pub path : Name
  pub start : ℤ

-- A call of the function that is given to WalkDir, on no directory.
pub data Visit : Type 0 where
  visited : Name → Option Decoded → Visit
  walk_error : Visit

pub record Segment : Type 0 where
  pub fpath : Name
  pub start : ℤ

abbrev pub starts_before : Segment → Segment → Bool
starts_before s r = ltb_ℤ s.start r.start

-- The errors of FindSegments.
pub data FindError : Type 0 where
  invalid_path : NameError → FindError
  walk_failed no_segments_found : FindError

pub data Segments : Type 0 where
  segments : List Segment → Segments
  failed : FindError → Segments

-- ok && (end == nil || !end.Before(pa.Start))
abbrev pub ends_after : Option ℤ → Decoded → Bool
ends_after none d = true
ends_after (some end) d = not (ltb_ℤ end d.start)

abbrev pub and_segment : Option ℤ → Name → Option Decoded → List Segment → List Segment
and_segment end fpath none ss = ss
and_segment end fpath (some d) ss =
    if ends_after end d then record { fpath = fpath; start = d.start } ∷ ss else ss

-- The walk of FindSegments, in its order; `none` for an error.
unfoldable pub gather : Option ℤ → List Visit → Option (List Segment)
gather end [] = some []
gather end (walk_error ∷ vs) = none
gather end (visited fpath d ∷ vs) = elim (gather end vs) [
  | none ↦ none
  | some ss ↦ some (and_segment end fpath d ss)
]

-- The loop over the segments that looks for `start`, and what follows it.
unfoldable pub containing : ℤ → List Segment → Segments
containing start [] = failed no_segments_found
containing start (s ∷ []) =
    if ltb_ℤ start s.start then failed no_segments_found else segments (s ∷ [])
containing start (s ∷ r ∷ ss) =
    let later = containing start (r ∷ ss) in
    if not (ltb_ℤ start s.start) && ltb_ℤ start r.start then segments (s ∷ r ∷ ss) else later

unfoldable pub from_start : Option ℤ → List Segment → Segments
from_start none ss = segments ss
from_start (some start) [] = failed no_segments_found
from_start (some start) (s ∷ ss) =
    if ltb_ℤ start s.start then segments (s ∷ ss) else containing start (s ∷ ss)

abbrev pub none_found : List Segment → Bool
none_found [] = true
none_found (s ∷ ss) = false

abbrev pub after_walk : (List Segment → List Segment) → Option ℤ → Option (List Segment) → Segments
after_walk sort_segments start none = failed walk_failed
after_walk sort_segments start (some ss) =
    if none_found ss then failed no_segments_found else from_start start (sort_segments ss)

abbrev pub unless_bad_name : Option NameError → Segments → Segments
unless_bad_name none s = s
unless_bad_name (some e) s = failed (invalid_path e)

-- `FindSegments`, on what the walk visits.
unfoldable pub find_segments :
    ((Segment → Segment → Bool) → List Segment → List Segment)
    → List Visit
    → Name
    → Option ℤ
    → Option ℤ
    → Segments
find_segments sort_slice visits name start end =
    unless_bad_name (is_valid_path_name name)
      (after_walk (sort_slice starts_before) start (gather end visits))

-- Whether the walk of a fixed path finds a segment before it fails.
unfoldable pub fixed_path_has_segments : List Visit → Bool
fixed_path_has_segments [] = false
fixed_path_has_segments (walk_error ∷ vs) = false
fixed_path_has_segments (visited fpath none ∷ vs) = fixed_path_has_segments vs
fixed_path_has_segments (visited fpath (some d) ∷ vs) = true

-- An insertion into a map[string]struct{}.
unfoldable pub insert_name : Name → List Name → List Name
insert_name n [] = n ∷ []
insert_name n (m ∷ ms) = let rest = insert_name n ms in if eqb_name m n then m ∷ ms else m ∷ rest

abbrev pub is_valid_name : Option NameError → Bool
is_valid_name none = true
is_valid_name (some e) = false

abbrev pub is_match : Option (List Name) → Bool
is_match none = false
is_match (some m) = true

module _ (submatch : ℕ → Name → Option (List Name)) where
  abbrev pub insert_decoded : PathConf → Option Decoded → List Name → List Name
  insert_decoded c none names = names
  insert_decoded c (some d) names =
      if is_valid_name (is_valid_path_name d.path) && is_match (conf_submatch submatch c d.path)
      then insert_name d.path names
      else names

  unfoldable pub regexp_path_find_paths : PathConf → List Visit → List Name → List Name
  regexp_path_find_paths c [] names = names
  regexp_path_find_paths c (walk_error ∷ vs) names = names
  regexp_path_find_paths c (visited fpath d ∷ vs) names =
      regexp_path_find_paths c vs (insert_decoded c d names)

  -- The walk for a configuration: with %path replaced by a name, or not.
  abbrev pub find_paths_of :
      (PathConf → Option Name → List Visit) → PathConf → Option ℕ → List Name → List Name
  find_paths_of walk c none names =
      if fixed_path_has_segments (walk c (some c.name)) then insert_name c.name names else names
  find_paths_of walk c (some r) names = regexp_path_find_paths c (walk c none) names

  unfoldable pub find_path_names :
      (PathConf → Option Name → List Visit) → Confs → List Name → List Name
  find_path_names walk [] names = names
  find_path_names walk ((key, c) ∷ cs) names =
      find_path_names walk cs (find_paths_of walk c c.regexp names)

  -- `FindAllPathsWithSegments`
  unfoldable pub find_all_paths_with_segments :
      (List Name → List Name) → (PathConf → Option Name → List Visit) → Confs → List Name
  find_all_paths_with_segments sort_strings walk confs =
      sort_strings (find_path_names walk confs [])
