-- ===== src/Selector/Dimensions.antt =====
-- Track sizes in internal/protocols/webrtc/track_selector.go: the two formulas of the OBS ladder,
-- and what SetTrackDimensions changes.
use ppmmx.Base.{
  ℕ, zero, suc, ◌+◌, ◌*◌, ◌≤◌, ◌<◌, ◌≡◌, refl, ap, ◌∙◌, Bool-cases, ◌⊎◌, inl, inr, Bool, true,
  false, Option, none, some, List, [], ◌∷◌, ◌==◌, ◌||◌, if◌then◌else◌, arith,
}
use ppmmx.Base.Int.{ℤ, pos, negsuc}
use ppmmx.Selector.{
  TrackInfo, TrackSelector, obs_canvas_size_from_layer, obs_simulcast_layer_size, find_target,
  estimate, or_else, is_video_with_id, apply_dimensions, update_dimensions, set_track_dimensions,
  video_track_count, has_video, resolved, video, audio,
}

-- For the ladders that the server builds (at most four layers), the canvas that is estimated from
-- the size of a scaled layer is never larger than the real one, and smaller by less than twice the
-- number of layers.
pub canvas_estimate :
    (k n w h : ℕ)
    → 0 < k
    → k < n
    → n ≤ 4
    → let layer = obs_simulcast_layer_size k n w h in
      let canvas = obs_canvas_size_from_layer k n layer.0 layer.1 in
      (canvas.0 ≤ w) × (w < canvas.0 + 2 * n) × (canvas.1 ≤ h) × (h < canvas.1 + 2 * n)
unfolding obs_simulcast_layer_size obs_canvas_size_from_layer
canvas_estimate zero n w h lo lt hi = absurd (omega arith)
canvas_estimate (suc zero) (suc (suc zero)) w h lo lt hi = omega arith
canvas_estimate (suc zero) (suc (suc (suc zero))) w h lo lt hi = omega arith
canvas_estimate (suc zero) (suc (suc (suc (suc zero)))) w h lo lt hi = omega arith
canvas_estimate (suc (suc zero)) (suc (suc (suc zero))) w h lo lt hi = omega arith
canvas_estimate (suc (suc zero)) (suc (suc (suc (suc zero)))) w h lo lt hi = omega arith
canvas_estimate (suc (suc (suc zero))) (suc (suc (suc (suc zero)))) w h lo lt hi = omega arith
canvas_estimate _ _ w h lo lt hi = absurd (omega arith)

-- What a call may do to one track: it keeps all but the size, its label and the mark, and it
-- leaves audio tracks and sizes that were resolved before as they are.
pub record Refines (t u : TrackInfo) : Type 0 where
  pub same_id : u.id ≡ t.id
  pub same_type : u.track_type ≡ t.track_type
  pub same_codec : u.codec ≡ t.codec
  pub same_bitrate : u.bitrate ≡ t.bitrate
  pub same_rid : u.rid ≡ t.rid
  pub audio_kept : t.track_type ≡ audio → u ≡ t
  pub resolved_kept : t.dims_resolved ≡ true → u ≡ t

abbrev pub AllRefine : List TrackInfo → List TrackInfo → Type 0
AllRefine [] [] = Unit
AllRefine [] (u ∷ us) = ⊥
AllRefine (t ∷ ts) [] = ⊥
AllRefine (t ∷ ts) (u ∷ us) = Refines t u × AllRefine ts us

Refines-refl : (t : TrackInfo) → Refines t t
Refines-refl t = record {
  same_id = refl;
  same_type = refl;
  same_codec = refl;
  same_bitrate = refl;
  same_rid = refl;
  audio_kept = λ e. refl;
  resolved_kept = λ e. refl;
}

AllRefine-refl : (ts : List TrackInfo) → AllRefine ts ts
AllRefine-refl [] = tt
AllRefine-refl (t ∷ ts) = (Refines-refl t, AllRefine-refl ts)

-- The track at the place `at`, if it is in the list, is a video that is not resolved.
abbrev OpenAt : ℕ → ℕ → List TrackInfo → Type 0
OpenAt at i [] = Unit {0}
OpenAt at i (t ∷ ts) =
    (i ≡ at → (t.dims_resolved ≡ false) × (t.track_type ≡ video)) × OpenAt at (i + 1) ts

past-OpenAt : (at i : ℕ) (ts : List TrackInfo) → at < i → OpenAt at i ts
past-OpenAt at i [] h = tt
past-OpenAt at i (t ∷ ts) h = ((λ e. absurd (omega arith)), past-OpenAt at (i + 1) ts (omega arith))

found_cases :
    (o : Option (ℕ × TrackInfo)) (b : Bool) (i : ℕ) (t : TrackInfo) (at : ℕ) (target : TrackInfo)
    → or_else o (if b then some (i, t) else none) ≡ some (at, target)
    → (o ≡ some (at, target)) ⊎ ((b ≡ true) × (i ≡ at) × (t ≡ target))
found_cases (some o) b i t at target e = inl e
found_cases none true i t at target e = inr (refl, cc, cc)
found_cases none false i t at target e = cc

find_target-bound :
    (id : ℤ) (i : ℕ) (ts : List TrackInfo) (at : ℕ) (target : TrackInfo)
    → find_target id i ts ≡ some (at, target)
    → i ≤ at
unfolding find_target
find_target-bound id i [] at target e = cc
find_target-bound id i (t ∷ ts) at target e =
    elim (found_cases (find_target id (i + 1) ts) (is_video_with_id t id) i t at target e) [
      | inl later ↦ omega (arith, find_target-bound id (i + 1) ts at target later)
      | inr now ↦ omega (arith, now.1)
    ]

find_target-OpenAt :
    (id : ℤ) (i : ℕ) (ts : List TrackInfo) (at : ℕ) (target : TrackInfo)
    → find_target id i ts ≡ some (at, target)
    → target.dims_resolved ≡ false
    → OpenAt at i ts
unfolding find_target
find_target-OpenAt id i [] at target e r = tt
find_target-OpenAt id i (t ∷ ts) at target e r =
    elim (found_cases (find_target id (i + 1) ts) (is_video_with_id t id) i t at target e) [
      | inl later ↦ (
        (λ same. absurd (omega (arith, find_target-bound id (i + 1) ts at target later))),
        find_target-OpenAt id (i + 1) ts at target later r,
      )
      | inr (is_it, same, eq) ↦ (
        (λ _. (ap (λ x. x.dims_resolved) eq ∙ r, ground arith)),
        past-OpenAt at (i + 1) ts (omega arith),
      )
    ]

estimate-Refines :
    (id count : ℕ) (canvas : ℕ × ℕ) (t : TrackInfo) → Refines t (estimate id count canvas t)
unfolding estimate
estimate-Refines id count canvas t = ground arith

resolved-Refines :
    (t : TrackInfo) (w h : ℕ)
    → t.dims_resolved ≡ false
    → t.track_type ≡ video
    → Refines t (resolved t w h)
resolved-Refines t w h r v = ground arith

update-AllRefine :
    (i at : ℕ) (target : TrackInfo) (count w h : ℕ) (ts : List TrackInfo)
    → OpenAt at i ts
    → AllRefine ts (update_dimensions i at target count w h ts)
unfolding update_dimensions
update-AllRefine i at target count w h [] o = tt
update-AllRefine i at target count w h (t ∷ ts) o = elim (Bool-cases (i == at)) [
  | inl here ↦
      let (unresolved, is_v) = o.0 (ground arith) in
      rw here (
        resolved-Refines t w h unresolved is_v,
        update-AllRefine (i + 1) at target count w h ts o.1,
      )
  | inr there ↦ rw there (
    estimate-Refines target.id count (obs_canvas_size_from_layer target.id count w h) t,
    update-AllRefine (i + 1) at target count w h ts o.1,
  )
]

-- Whatever the arguments, a call keeps the ids, types, codecs, bitrates and RIDs of all tracks,
-- leaves audio tracks and sizes resolved before as they are, and neither adds nor drops a track.
pub set_dimensions-AllRefine :
    (ts : TrackSelector) (id w h : ℤ)
    → AllRefine ts.tracks (set_track_dimensions ts id w h).0.tracks
unfolding set_track_dimensions
set_dimensions-AllRefine ts id (negsuc w) h = AllRefine-refl ts.tracks
set_dimensions-AllRefine ts id (pos w) (negsuc h) = AllRefine-refl ts.tracks
set_dimensions-AllRefine ts id (pos w) (pos h) = elim (Bool-cases (w == 0 || h == 0)) [
  | inl bad ↦ rw bad (AllRefine-refl ts.tracks)
  | inr good ↦ rw good (applied (find_target id 0 ts.tracks) refl)
]
  where
    applied :
        (o : Option (ℕ × TrackInfo))
        → find_target id 0 ts.tracks ≡ o
        → AllRefine ts.tracks (apply_dimensions o ts w h).0.tracks
    applied none e = AllRefine-refl ts.tracks
    applied (some (at, target)) e = elim (Bool-cases target.dims_resolved) [
      | inl r ↦ rw r (AllRefine-refl ts.tracks)
      | inr r ↦ simp r (
          update-AllRefine 0 at target (video_track_count ts.tracks) w h ts.tracks
            (find_target-OpenAt id 0 ts.tracks at target e r))
    ]

has_video-AllRefine :
    (id : ℤ) (ts us : List TrackInfo) → AllRefine ts us → has_video id us ≡ has_video id ts
unfolding has_video
has_video-AllRefine id [] [] r = refl
has_video-AllRefine id [] (u ∷ us) r = absurd r
has_video-AllRefine id (t ∷ ts) [] r = absurd r
has_video-AllRefine id (t ∷ ts) (u ∷ us) r =
    rw (r.0.same_id, r.0.same_type, has_video-AllRefine id ts us r.1)

-- The ids stay those of video tracks or not.
pub has_video-dimensions :
    (ts : TrackSelector) (k id w h : ℤ)
    → has_video k (set_track_dimensions ts id w h).0.tracks ≡ has_video k ts.tracks
has_video-dimensions ts k id w h =
    has_video-AllRefine k ts.tracks (set_track_dimensions ts id w h).0.tracks
      (set_dimensions-AllRefine ts id w h)
