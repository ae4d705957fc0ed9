-- ===== src/Degrade/Tests.antt =====
-- Concrete runs of the degrade ladder, and its theorems at concrete inputs, over fixed-point
-- percentages: RaisePct 5, LowerPct 1, RestartPct 10, and a window of twelve seconds.
use mathlib.Core.List.{Memᴰ}
use ppmmx.Base.{
  ℕ, ◌*◌, ◌≤◌, ◌≡◌, ◌≢◌, refl, ◌⊎◌, true, false, none, some, List, [], ◌∷◌, ◌++◌, All, arith, suc,
  ◌<◌,
}
use ppmmx.Base.Int.{pos}
use ppmmx.Base.Float.{fixed_point}
use ppmmx.Degrade.{
  State, action_none, action_restart, action_recover, new_state, codec_from_path,
  observe_session_layer_count, bind_conn, degrade, recover, second,
}
use ppmmx.Degrade.Sample.{Thresholds, on_loss, on_compliance, loss_rate, record_sample, sample}
use ppmmx.Degrade.Ladder.{
  IsOnLadder, rung, bottom, Answers, SameRung, degrade-rung, recover-degrade, sample-Answers,
}
use ppmmx.Degrade.Branches.{Reading}
use ppmmx.Degrade.Timing.{
  sample_at, answers, after, no_early_recovery, one_step_per_window, sustained_recovery,
}
use ppmmx.Degrade.Delivery.{View, InSync, deliver}
use ppmmx.Degrade.Runs.{Event, observed, sampled, bound, run, run_sound}
use ppmmx.Degrade.Race.{bind_swap, bind_write, bind_snapshot, bind_race}

abbrev million : ℕ
million = 1000000

abbrev strict : Thresholds fixed_point
strict = record {
  raise_pct = 5 * million;
  lower_pct = 1 * million;
  restart_pct = 10 * million;
  observation_sec = 12;
}

-- A path with three layers whose counters stand at 0 and 1000, sampled at second 100.
abbrev full : State
full = record {
  path = "live/room/h264";
  max_layers = 3;
  layers = 3;
  bitrate_percent = 100;
  have_last_cum = true;
  last_unrecov = 0;
  last_total = 1000;
  good_since = none;
  last_sample_at = some (100 * second);
  degrade_cooldown_until = none;
  last_alert_time = none;
  ws_conn = some 7;
}

abbrev floor : State
floor = record full { bitrate_percent = 60 }

full-IsOnLadder : IsOnLadder full
full-IsOnLadder = ground arith

floor-IsOnLadder : IsOnLadder floor
floor-IsOnLadder = ground arith

h264_codec : codec_from_path "live/room/h264" ≡ "h264"
unfolding codec_from_path
h264_codec = refl

legacy_codec : codec_from_path "live/room" ≡ ""
unfolding codec_from_path
legacy_codec = refl

-- 20 of 100 packets lost, then none of 100.
abbrev lossy : Reading
lossy = record { unrecov = 20; total = 1100; now = 106 * second }

abbrev still_lossy : Reading
still_lossy = record { unrecov = 40; total = 1200; now = 112 * second }

abbrev calm : ℕ → ℕ → Reading
calm total now = record { unrecov = 20; total = total; now = now * second }

restarts : (sample_at fixed_point strict floor lossy).0 ≡ action_restart
unfolding sample record_sample on_loss degrade loss_rate
restarts = refl

sample-Answers_example :
    Answers
      (sample fixed_point floor 20 1100 strict (106 * second)).0
      floor
      (sample fixed_point floor 20 1100 strict (106 * second)).1
sample-Answers_example =
    sample-Answers fixed_point floor 20 1100 strict (106 * second) floor-IsOnLadder

degrade-rung_example :
    ((rung (degrade floor 5 true).1 ≡ suc (rung floor)) × (0 < 3) × (rung floor < bottom floor))
    ⊎ ((rung (degrade floor 5 true).1 ≡ rung floor)
        × ((floor.max_layers ≡ 0)
            ⊎ (rung floor ≡ bottom floor)
            ⊎ ((true ≡ false) × (2 ≤ rung floor))))
degrade-rung_example = degrade-rung floor 5 true floor-IsOnLadder

recover-degrade_example :
    ((recover (degrade floor 5 true).1).0.layers ≡ 3)
    × ((recover (degrade floor 5 true).1).0.bitrate_percent ≡ 60)
unfolding degrade
recover-degrade_example = recover-degrade floor 5 true floor-IsOnLadder refl

no_early_recovery_example :
    All
      (λ a. a ≢ action_recover)
      (answers fixed_point strict
        (sample_at fixed_point strict floor lossy).1
        (calm 1200 112 ∷ calm 1300 117 ∷ []))
unfolding loss_rate
no_early_recovery_example =
    no_early_recovery fixed_point strict floor lossy (calm 1200 112 ∷ calm 1300 117 ∷ [])
      (refl, refl) (omega arith)

one_step_per_window_example :
    All
      (λ a. a ≡ action_none)
      (answers fixed_point strict (sample_at fixed_point strict floor lossy).1 (still_lossy ∷ []))
    × SameRung
        (sample_at fixed_point strict floor lossy).1
        (after fixed_point strict (sample_at fixed_point strict floor lossy).1 (still_lossy ∷ []))
unfolding sample record_sample on_loss degrade loss_rate
one_step_per_window_example =
    one_step_per_window fixed_point strict floor lossy (still_lossy ∷ []) (refl, refl) (λ e. cc)
      (((refl, refl), omega arith, refl), tt)

sustained_recovery_example : Memᴰ action_recover (
    answers fixed_point strict
      (record floor { last_unrecov = 20 })
      (calm 1100 106 ∷ (calm 1200 112 ∷ []) ++ (calm 1300 118 ∷ [])))
unfolding sample record_sample on_compliance loss_rate
sustained_recovery_example =
    sustained_recovery fixed_point strict refl (record floor { last_unrecov = 20 }) (calm 1100 106)
      (calm 1200 112 ∷ []) (calm 1300 118) refl (refl, refl) (omega arith)
      (((refl, refl), refl), (((refl, refl), refl), tt))

abbrev unseen : View
unseen conn = none

abbrev session : List (Event fixed_point)
session =
    observed (pos 3)
    ∷ bound 7
    ∷ sampled 0 1000 strict (100 * second)
    ∷ sampled 20 1100 strict (106 * second)
    ∷ []

run_sound_example :
    IsOnLadder (run fixed_point (new_state "live/room/h264") unseen session).0
    × InSync
        (run fixed_point (new_state "live/room/h264") unseen session).0
        (run fixed_point (new_state "live/room/h264") unseen session).1
run_sound_example = run_sound fixed_point "live/room/h264" unseen session

session_degrades :
    (run fixed_point (new_state "live/room/h264") unseen session).0.bitrate_percent ≡ 80
unfolding run new_state observe_session_layer_count bind_conn sample record_sample on_loss degrade
    loss_rate
session_degrades = refl

bind_race_example : ¬ InSync (degrade (bind_swap full 9).0 5 true).1 (
    deliver
      ((degrade (bind_swap full 9).0 5 true).2 ++ bind_write 9 (bind_snapshot (bind_swap full 9).0))
      unseen)
bind_race_example = bind_race full 9 5 true unseen full-IsOnLadder (omega arith) (omega arith)
