-- ===== src/Selector/Session.antt =====
-- A whole session of one reader on internal/protocols/webrtc/track_selector.go: a description is
-- loaded, and then anything is selected, received and resolved.
use ppmmx.Base.{List, [], ◌∷◌}
use ppmmx.Base.Int.{ℤ}
use ppmmx.Selector.{
  TrackSelector, Media, new_track_selector, load_from_description, set_track_dimensions,
}
use ppmmx.Selector.Switching.{
  IsSound, Event, selected, access_unit, dimensions, step, final, select-IsSound,
  on_access_unit-IsSound, dimensions-keep,
}
use ppmmx.Selector.Dimensions.{has_video-dimensions}
use ppmmx.Selector.Loading.{load-IsSound}

dimensions-IsSound :
    (ts : TrackSelector) (id w h : ℤ) → IsSound ts → IsSound (set_track_dimensions ts id w h).0
dimensions-IsSound ts id w h s =
    let (active, pending, at, pass) = dimensions-keep ts id w h in
    record {
      active_known = rw (active, has_video-dimensions ts ts.active_id id w h) s.active_known;
      pending_known = rw (pending, has_video-dimensions ts ts.pending_id id w h) s.pending_known;
      pending_other = rw (active, pending) s.pending_other;
    }

step-IsSound : (ts : TrackSelector) (e : Event) → IsSound ts → IsSound (step ts e)
unfolding step
step-IsSound ts (selected target now) s = select-IsSound ts target now s
step-IsSound ts (access_unit id keyframe now) s = on_access_unit-IsSound ts id keyframe now s
step-IsSound ts (dimensions id w h) s = dimensions-IsSound ts id w h s

final-IsSound : (ts : TrackSelector) (es : List Event) → IsSound ts → IsSound (final ts es)
unfolding final
final-IsSound ts [] s = s
final-IsSound ts (e ∷ es) s = final-IsSound (step ts e) es (step-IsSound ts e s)

-- After any session on any description, the active and the pending id are -1 or name video
-- tracks of the selector, and they differ unless nothing is pending.
pub session-IsSound :
    (medias : List Media) (es : List Event)
    → IsSound (final (load_from_description new_track_selector medias) es)
session-IsSound medias es =
    final-IsSound (load_from_description new_track_selector medias) es (load-IsSound medias)
