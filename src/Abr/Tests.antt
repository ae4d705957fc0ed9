-- ===== src/Abr/Tests.antt =====
-- internal/servers/webrtc/abr_controller.go on concrete samples: runs, and the theorems applied.
use ppmmx.Base.{ℕ, ◌≡◌, refl, true, false, List, [], ◌∷◌, ◌≤◌, length, Option, some, arith}
use ppmmx.Base.Int.{pos, ◌+ℤ◌}
use ppmmx.Base.Float.{fixed_point}
use ppmmx.Selector.{
  TrackInfo, TrackSelector, video, audio, h264, opus, quality, audio_opus, no_track,
}
use ppmmx.Abr.{
  video_ladder, insert, step, index_of, new_controller, observe_rtt, evaluate, least, rtt_congested,
  rtt_stable,
}
use ppmmx.Abr.Ladder.{Rungs, Ordered, delta, down, step-Rungs}
use ppmmx.Abr.Streaks.{Event, sampled, after, verdicts, wanted, evaluate-wanted}
use ppmmx.Abr.Window.{Hears, heard, after-Hears}

abbrev layer : ℕ → ℕ → TrackInfo
layer n rate = record {
  id = n;
  rid = "0";
  track_type = video;
  codec = h264;
  label = quality 720 h264;
  bitrate = rate;
  width = 1280;
  height = 720;
  dims_resolved = true;
}

abbrev sound : TrackInfo
sound = record {
  id = 999;
  rid = "";
  track_type = audio;
  codec = opus;
  label = audio_opus;
  bitrate = 64000;
  width = 0;
  height = 0;
  dims_resolved = false;
}

abbrev layers : List TrackInfo
layers = layer 0 2000000 ∷ layer 1 1000000 ∷ sound ∷ []

abbrev watching : TrackSelector
watching = record {
  tracks = layers;
  active_id = pos 0;
  pending_id = no_track;
  pending_at = 0;
  passthrough = false;
}

-- Losses of two percent, with a round trip of 30 milliseconds.
abbrev lossy : Event fixed_point
lossy = sampled watching 2000000 30000000

abbrev second_loss : Option ℕ
second_loss = (evaluate fixed_point (after fixed_point (lossy ∷ [])) watching 2000000 30000000).1

two_losses : second_loss ≡ some 1
unfolding after new_controller evaluate observe_rtt least rtt_congested rtt_stable video_ladder
    insert step index_of ◌+ℤ◌
two_losses = refl

two_layers : 2 ≤ length (video_ladder layers)
unfolding video_ladder insert
two_layers = omega arith

step_down : step (video_ladder layers) (pos 0) (delta down) ≡ some 1
unfolding video_ladder insert step index_of ◌+ℤ◌
step_down = refl

evaluate-wanted_example :
    second_loss ≡ wanted (verdicts fixed_point (lossy ∷ lossy ∷ [])) (video_ladder layers) (pos 0)
evaluate-wanted_example =
    evaluate-wanted fixed_point (lossy ∷ []) watching 2000000 30000000 two_layers

after-Hears_example :
    Hears fixed_point (after fixed_point (lossy ∷ [])) (heard fixed_point (lossy ∷ []))
after-Hears_example = after-Hears fixed_point (lossy ∷ [])

step-Rungs_example : (r : Rungs (video_ladder layers) (pos 0) 1 down) × Ordered down r.from r.to
step-Rungs_example = step-Rungs layers (pos 0) 1 down step_down
