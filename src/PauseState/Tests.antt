-- ===== src/PauseState/Tests.antt =====
-- internal/protocols/webrtc/media_state_test.go: fixed runs, and the theorems at concrete sessions.
use ppmmx.Base.{ℕ, suc, ◌≡◌, refl, true, false, List, [], ◌∷◌, arith}
use ppmmx.PauseState.{
  Media, video_media, audio_media, Payload, payload_h264, other_payload, MediaState, entry_of,
  set_generation, any_below, has_idr, is_start, allow_video, allow, swap_video_paused,
  set_video_paused, video_needs_keyframe, Event, pause_video, deliver, step, run,
}
use ppmmx.PauseState.Gating.{count_of, run-Gated}
use ppmmx.PauseState.Opening.{offered, run-opened}

abbrev idr : ℕ
idr = 5

abbrev camera : Media
camera = record { address = 7; media_type = video_media }

abbrev microphone : Media
microphone = record { address = 8; media_type = audio_media }

-- A slice that is no keyframe, and the parameter set and the keyframe of the test.
abbrev slice : Payload
slice = payload_h264 ((0x41 ∷ []) ∷ [])

abbrev keyframe : Payload
keyframe = payload_h264 ((0x67 ∷ []) ∷ (0x65 ∷ []) ∷ [])

abbrev fresh : MediaState
fresh = record {
  video_paused = false;
  audio_paused = false;
  video_generation = 0;
  video_media_generation = [];
}

abbrev paused : MediaState
paused = record {
  video_paused = true;
  audio_paused = false;
  video_generation = 3;
  video_media_generation = (7, 3) ∷ [];
}

abbrev resume_and_wait : List Event
resume_and_wait =
    pause_video false
    ∷ deliver camera slice
    ∷ deliver microphone other_payload
    ∷ deliver camera slice
    ∷ []

waits_for_keyframe :
    (run idr fresh (
      pause_video true
      ∷ pause_video false
      ∷ deliver camera slice
      ∷ deliver camera keyframe
      ∷ deliver camera slice
      ∷ [])).1
    ≡ (camera, keyframe) ∷ (camera, slice) ∷ []
unfolding run step allow allow_video set_video_paused is_start has_idr entry_of set_generation
waits_for_keyframe = refl

asks_for_keyframe :
    video_needs_keyframe
      (run idr fresh (pause_video true ∷ pause_video false ∷ deliver camera slice ∷ [])).0
    ≡ true
unfolding run step allow allow_video set_video_paused is_start has_idr entry_of set_generation
    video_needs_keyframe any_below
asks_for_keyframe = refl

stops_asking :
    video_needs_keyframe
      (run idr fresh (pause_video true ∷ pause_video false ∷ deliver camera keyframe ∷ [])).0
    ≡ false
unfolding run step allow allow_video set_video_paused is_start has_idr entry_of set_generation
    video_needs_keyframe any_below
stops_asking = refl

-- A unit that comes between the two atomic operations of a resume passes without a keyframe.
slips_between : (allow idr (swap_video_paused paused false).0 camera slice).1 ≡ true
unfolding allow allow_video entry_of
slips_between = refl

run-Gated_example : count_of 7 (run idr paused resume_and_wait).1 ≡ 0
unfolding is_start has_idr
run-Gated_example =
    run-Gated idr 7 paused resume_and_wait refl (omega arith, tt)
      (tt, ((λ e. refl), ((λ e. cc), ((λ e. refl), tt)))) (omega arith)

run-opened_example :
    count_of 7
      (run idr
        (set_video_paused paused false)
        (deliver camera keyframe ∷ deliver camera slice ∷ deliver microphone other_payload ∷ [])).1
    ≡ suc (count_of 7 (offered (deliver camera slice ∷ deliver microphone other_payload ∷ [])))
unfolding set_video_paused is_start has_idr
run-opened_example =
    run-opened idr 7 (set_video_paused paused false) keyframe
      (deliver camera slice ∷ deliver microphone other_payload ∷ []) refl refl (tt, (tt, tt))
