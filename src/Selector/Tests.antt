-- ===== src/Selector/Tests.antt =====
-- Concrete runs of the track selector, and its theorems at concrete inputs.
use ppmmx.Base.{ℕ, ◌*◌, ◌^◌, ◌≡◌, refl, true, false, List, [], ◌∷◌, arith}
use ppmmx.Base.Int.{pos, negsuc, eqb_ℤ}
use ppmmx.Selector.{
  TrackSelector, Media, video_media, audio_media, h264_format, other_format, new_track_selector,
  load_from_description, layer_tracks, count_video, detect_codec, select, on_access_unit,
  set_track_dimensions, find_target, update_dimensions, obs_canvas_size_from_layer,
  obs_simulcast_layer_size, has_video, video_track_count,
}
use ppmmx.Selector.Switching.{
  Event, selected, access_unit, dimensions, final, output, IsSound, IsSpliced, output-IsSpliced,
  forward-active,
}
use ppmmx.Selector.Completion.{select_completes}
use ppmmx.Selector.Dimensions.{AllRefine, set_dimensions-AllRefine}
use ppmmx.Selector.Session.{session-IsSound}

abbrev video_of_h264 : Media
video_of_h264 = record { media_type = video_media; formats = h264_format ∷ [] }

abbrev three_layers : List Media
three_layers =
    video_of_h264
    ∷ record { media_type = audio_media; formats = other_format ∷ [] }
    ∷ video_of_h264
    ∷ video_of_h264
    ∷ []

abbrev loaded : TrackSelector
loaded = load_from_description new_track_selector three_layers

abbrev second : ℕ
second = 10 ^ 9

-- A viewer selects layer 2, an AU of layer 0 and one of layer 2 pass by, then its keyframe.
abbrev session : List Event
session =
    selected (pos 2) (10 * second)
    ∷ access_unit (pos 0) false (11 * second)
    ∷ access_unit (pos 2) false (11 * second)
    ∷ dimensions (pos 0) (pos 1920) (pos 1080)
    ∷ access_unit (pos 2) true (12 * second)
    ∷ access_unit (pos 0) false (12 * second)
    ∷ []

session_forwards : output loaded session ≡ (pos 0, false) ∷ (pos 2, true) ∷ []
unfolding output load_from_description new_track_selector layer_tracks count_video detect_codec
    select has_video on_access_unit set_track_dimensions find_target update_dimensions
    obs_canvas_size_from_layer obs_simulcast_layer_size video_track_count
session_forwards = refl

output-IsSpliced_example : IsSpliced loaded.active_id (output loaded session)
unfolding load_from_description new_track_selector count_video
output-IsSpliced_example = output-IsSpliced loaded session refl

forward-active_example :
    let a = on_access_unit loaded (pos 1) true 5 in
    a.should_forward ≡ eqb_ℤ (pos 1) a.selector.active_id
forward-active_example = forward-active loaded (pos 1) true 5

session-IsSound_example :
    IsSound (final (load_from_description new_track_selector three_layers) session)
session-IsSound_example = session-IsSound three_layers session

abbrev waiting : TrackSelector
waiting = record loaded { pending_id = pos 2; pending_at = 10 * second }

abbrev meanwhile : List Event
meanwhile = access_unit (pos 0) true (11 * second) ∷ access_unit (pos 2) false (11 * second) ∷ []

select_completes_example :
    let u = final (select loaded (pos 2) (10 * second)).1 meanwhile in
    let a = on_access_unit u (pos 2) true (12 * second) in
    (u.active_id ≡ loaded.active_id)
    × (a.should_forward ≡ true)
    × (a.switched ≡ true)
    × (a.selector.active_id ≡ pos 2)
    × (a.selector.pending_id ≡ negsuc 0)
    × (a.notified ≡ (loaded.active_id, pos 2) ∷ [])
unfolding load_from_description new_track_selector layer_tracks count_video detect_codec has_video
select_completes_example =
    select_completes loaded 2 (10 * second) meanwhile (12 * second) refl refl refl
      ((refl, omega arith), ((refl, omega arith), tt))

-- The estimate is off by seven pixels here.
canvas_off_by_seven :
    (obs_canvas_size_from_layer 3 4 (obs_simulcast_layer_size 3 4 1287 720).0 180).0 ≡ 1280
unfolding obs_canvas_size_from_layer obs_simulcast_layer_size
canvas_off_by_seven = refl

set_dimensions-AllRefine_example :
    AllRefine loaded.tracks (set_track_dimensions loaded (pos 1) (pos 1280) (pos 720)).0.tracks
set_dimensions-AllRefine_example = set_dimensions-AllRefine loaded (pos 1) (pos 1280) (pos 720)
