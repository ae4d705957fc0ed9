-- ===== src/Selector/Switching.antt =====
-- Layer switching of internal/protocols/webrtc/track_selector.go over sequences of calls: which
-- access units reach the reader, and when a requested layer becomes the active one.
use ppmmx.Base.{
  ℕ, ◌+◌, ◌≤◌, ◌<◌, ◌≡◌, refl, ◌∙◌, ◌++◌, subst, ◌⊎◌, inl, inr, Bool, true, false, List, [], ◌∷◌,
  arith, if◌then◌else◌,
}
use ppmmx.Base.Int.{ℤ, pos, negsuc, eqb_ℤ, eqb_ℤ_iff}
use ppmmx.Selector.{
  TrackSelector, no_track, pending_timeout, has_video, select, on_access_unit, should_queue,
  set_track_dimensions, is_nonneg,
}

-- Between two calls: the active and the pending id are -1 or name video tracks, and they differ
-- unless nothing is pending.
pub record IsSound (ts : TrackSelector) : Type 0 where
  pub active_known : (ts.active_id ≡ no_track) ⊎ (has_video ts.active_id ts.tracks ≡ true)
  pub pending_known : (ts.pending_id ≡ no_track) ⊎ (has_video ts.pending_id ts.tracks ≡ true)
  pub pending_other : (ts.pending_id ≡ no_track) ⊎ (eqb_ℤ ts.pending_id ts.active_id ≡ false)

pub select-IsSound :
    (ts : TrackSelector) (target : ℤ) (now : ℕ) → IsSound ts → IsSound (select ts target now).1
unfolding select
select-IsSound ts target now h = ground arith

pub on_access_unit-IsSound :
    (ts : TrackSelector) (id : ℤ) (keyframe : Bool) (now : ℕ)
    → IsSound ts
    → IsSound (on_access_unit ts id keyframe now).selector
unfolding on_access_unit
on_access_unit-IsSound ts id keyframe now h = ground arith

-- An access unit is forwarded exactly if it is of the track that is active after the call.
pub forward-active :
    (ts : TrackSelector) (id : ℤ) (keyframe : Bool) (now : ℕ)
    → let a = on_access_unit ts id keyframe now in a.should_forward ≡ eqb_ℤ id a.selector.active_id
unfolding on_access_unit
forward-active ts id keyframe now = ground arith

-- A track that `ShouldQueue` refuses matters to no one: its access unit is not forwarded, and
-- unless a pending switch has timed out the call changes and notifies nothing.
pub should_queue_exact :
    (ts : TrackSelector) (id : ℤ) (keyframe : Bool) (now : ℕ)
    → should_queue ts id ≡ false
    → let a = on_access_unit ts id keyframe now in
      (a.should_forward ≡ false)
      × (a.switched ≡ false)
      × (a.selector.active_id ≡ ts.active_id)
      × ((now ≤ ts.pending_at + pending_timeout) → (a.selector ≡ ts) × (a.notified ≡ []))
unfolding should_queue on_access_unit
should_queue_exact ts id keyframe now h =
    (ground arith, ground arith, ground arith, λ early. ground arith)

-- No pending switch outlives its timeout by an access unit, of whatever track.
pub pending_timed_out :
    (ts : TrackSelector) (id : ℤ) (keyframe : Bool) (now : ℕ)
    → ts.passthrough ≡ false
    → ts.pending_at + pending_timeout < now
    → is_nonneg (on_access_unit ts id keyframe now).selector.pending_id ≡ false
unfolding on_access_unit
pending_timed_out ts id keyframe now off late = ground arith

-- The methods that a session calls while it streams.
pub data Event : Type 0 where
  selected : ℤ → ℕ → Event
  access_unit : ℤ → Bool → ℕ → Event
  dimensions : ℤ → ℤ → ℤ → Event

unfoldable pub step : TrackSelector → Event → TrackSelector
step ts (selected target now) = (select ts target now).1
step ts (access_unit id keyframe now) = (on_access_unit ts id keyframe now).selector
step ts (dimensions id w h) = (set_track_dimensions ts id w h).0

-- What reaches the reader: the track of each forwarded access unit, and whether it is a keyframe.
unfoldable pub emitted : TrackSelector → Event → List (ℤ × Bool)
emitted ts (selected target now) = []
emitted ts (access_unit id keyframe now) =
    if (on_access_unit ts id keyframe now).should_forward then (id, keyframe) ∷ [] else []
emitted ts (dimensions id w h) = []

unfoldable pub output : TrackSelector → List Event → List (ℤ × Bool)
unfolding step emitted
output ts [] = []
output ts (e ∷ es) = emitted ts e ++ output (step ts e) es

unfoldable pub final : TrackSelector → List Event → TrackSelector
unfolding step
final ts [] = ts
final ts (e ∷ es) = final (step ts e) es

-- A stream that plays `current`: every access unit of another track than the one before it is a
-- keyframe.
abbrev pub IsSpliced : ℤ → List (ℤ × Bool) → Type 0
IsSpliced current [] = Unit
IsSpliced current ((id, keyframe) ∷ out) = ((id ≡ current) ⊎ (keyframe ≡ true)) × IsSpliced id out

pub dimensions-keep :
    (ts : TrackSelector) (id w h : ℤ)
    → let u = (set_track_dimensions ts id w h).0 in
      (u.active_id ≡ ts.active_id)
      × (u.pending_id ≡ ts.pending_id)
      × (u.pending_at ≡ ts.pending_at)
      × (u.passthrough ≡ ts.passthrough)
unfolding set_track_dimensions
dimensions-keep ts id (negsuc w) h = (refl, refl, refl, refl)
dimensions-keep ts id (pos w) (negsuc h) = (refl, refl, refl, refl)
dimensions-keep ts id (pos w) (pos h) = ground arith

-- While the pass-through mode is off, `Select` by itself never changes the active track.
select-keep :
    (ts : TrackSelector) (target : ℤ) (now : ℕ)
    → ts.passthrough ≡ false
    → ((select ts target now).1.active_id ≡ ts.active_id)
      × ((select ts target now).1.passthrough ≡ false)
unfolding select
select-keep ts target now off = ground arith

-- What one access unit does in that mode: it is dropped and the active track stays, or it is
-- forwarded and its track is the active one, either as before or from this keyframe on.
access_unit_cases :
    (ts : TrackSelector) (id : ℤ) (keyframe : Bool) (now : ℕ)
    → ts.passthrough ≡ false
    → let a = on_access_unit ts id keyframe now in
      (a.selector.passthrough ≡ false)
      × (((a.should_forward ≡ false) × (a.selector.active_id ≡ ts.active_id))
          ⊎ ((a.should_forward ≡ true)
              × (a.selector.active_id ≡ id)
              × ((id ≡ ts.active_id) ⊎ (keyframe ≡ true))))
unfolding on_access_unit
access_unit_cases ts id keyframe now off =
    ground (arith, eqb_ℤ_iff id ts.active_id, eqb_ℤ_iff id ts.pending_id)

pub step-passthrough :
    (ts : TrackSelector) (e : Event) → ts.passthrough ≡ false → (step ts e).passthrough ≡ false
unfolding step
step-passthrough ts (selected target now) off = (select-keep ts target now off).1
step-passthrough ts (access_unit id keyframe now) off = (access_unit_cases ts id keyframe now off).0
step-passthrough ts (dimensions id w h) off = (dimensions-keep ts id w h).3 ∙ off

step-IsSpliced :
    (ts : TrackSelector) (e : Event) (out : List (ℤ × Bool))
    → ts.passthrough ≡ false
    → IsSpliced (step ts e).active_id out
    → IsSpliced ts.active_id (emitted ts e ++ out)
unfolding step emitted
step-IsSpliced ts (selected target now) out off rest =
    subst (λ a. IsSpliced a out) (select-keep ts target now off).0 rest
step-IsSpliced ts (access_unit id keyframe now) out off rest =
    elim (access_unit_cases ts id keyframe now off).1 [
      | inl (dropped, same) ↦ rw dropped (subst (λ a. IsSpliced a out) same rest)
      | inr (forwarded, now_active, reason) ↦
          rw forwarded (reason, subst (λ a. IsSpliced a out) now_active rest)
    ]
step-IsSpliced ts (dimensions id w h) out off rest =
    subst (λ a. IsSpliced a out) (dimensions-keep ts id w h).0 rest

-- Seamless switching: while the pass-through mode is off, whatever is selected, received and
-- resolved in whatever order, the reader's stream changes track at keyframes only.
pub output-IsSpliced :
    (ts : TrackSelector) (es : List Event)
    → ts.passthrough ≡ false
    → IsSpliced ts.active_id (output ts es)
unfolding output
output-IsSpliced ts [] off = tt
output-IsSpliced ts (e ∷ es) off =
    step-IsSpliced ts e (output (step ts e) es) off
      (output-IsSpliced (step ts e) es (step-passthrough ts e off))
