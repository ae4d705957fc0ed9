-- ===== src/Abr/Streaks.antt =====
-- internal/servers/webrtc/abr_controller.go: the confirmation counters against the history of the
-- evaluations, each seen as one verdict.
use ppmmx.Base.{
  ℕ, suc, ◌%◌, ◌≤◌, ◌<◌, ◌≡◌, refl, ap, sym, subst, ge→ltb, ◌∙◌, inl, inr, Bool, true, false, ◌&&◌,
  ◌||◌, Option, none, List, [], ◌∷◌, length, ltb, ◌==◌, if◌then◌else◌, arith, Bool-cases,
}
use ppmmx.Base.Int.{ℤ, pos, negsuc}
use ppmmx.Base.Float.{Float64}
use ppmmx.Selector.{TrackInfo, TrackSelector}
use ppmmx.Abr.{
  video_ladder, step, Controller, new_controller, observe_rtt, rtt_stable, rtt_congested, evaluate,
  reset, downgrade, upgrade,
}

-- What one evaluation says of the link.
pub data Verdict : Type 0 where
  worse better hold : Verdict

abbrev pub same : Verdict → Verdict → Bool
same worse worse = true
same better better = true
same hold hold = true
same v w = false

-- How many of the latest verdicts, the first ones of the list, are `v` with no other among them.
unfoldable pub streak : Verdict → List Verdict → ℕ
streak v [] = 0
streak v (w ∷ ws) = if same v w then suc (streak v ws) else 0

-- The decision that the verdicts ask for, the latest first: one rung down at every second `worse`
-- in a row, one rung up at every fifth `better`.
unfoldable pub wanted : List Verdict → List TrackInfo → ℤ → Option ℕ
wanted [] ladder active = none
wanted (worse ∷ vs) ladder active =
    if streak worse (worse ∷ vs) % 2 == 0 then step ladder active (negsuc 0) else none
wanted (better ∷ vs) ladder active =
    if streak better (better ∷ vs) % 5 == 0 then step ladder active (pos 1) else none
wanted (hold ∷ vs) ladder active = none

module _ (F : Float64) where
  open F use {Carrier, literal, le}

  pub data Event : Type 0 where
    sampled : TrackSelector → Carrier → Carrier → Event
    cleared : Event

  abbrev pub verdict_on : Bool → Bool → Verdict
  verdict_on true b = worse
  verdict_on false true = better
  verdict_on false false = hold

  -- The verdict of a controller that has seen the sample: loss of 1 percent or congestion is worse,
  -- loss of 0.3 percent at most with a stable round trip is better.
  unfoldable pub verdict : Controller F → Carrier → Carrier → Verdict
  verdict c loss rtt =
      verdict_on (le (literal 10 1) loss || rtt_congested F c rtt)
        (le loss (literal 3 1) && rtt_stable F c rtt)

  abbrev pub apply : Event → Controller F → Controller F
  apply (sampled ts loss rtt) c = (evaluate F c ts loss rtt).0
  apply cleared c = reset F c

  -- The controller after some events, the latest first.
  unfoldable pub after : List Event → Controller F
  after [] = new_controller F
  after (e ∷ es) = apply e (after es)

  abbrev pub note_down : Event → Controller F → List Verdict → List Verdict
  note_down (sampled ts loss rtt) c vs =
      if ltb (length (video_ladder ts.tracks)) 2
      then vs
      else verdict (observe_rtt F c rtt) loss rtt ∷ vs
  note_down cleared c vs = []

  -- The verdicts since the last reset; an evaluation without two layers gives none.
  unfoldable pub verdicts : List Event → List Verdict
  verdicts [] = []
  verdicts (e ∷ es) = note_down e (after es) (verdicts es)

  -- The counters say the streaks.
  pub record Counts (c : Controller F) (vs : List Verdict) : Type 0 where
    pub down : c.downgrade_count ≡ streak worse vs % 2
    pub up : c.upgrade_count ≡ streak better vs % 5

  observe-counts :
      (c : Controller F) (rtt : Carrier)
      → ((observe_rtt F c rtt).downgrade_count ≡ c.downgrade_count)
        × ((observe_rtt F c rtt).upgrade_count ≡ c.upgrade_count)
  unfolding observe_rtt
  observe-counts c rtt = ground arith

  -- The branch of `evaluate` that a verdict names.
  branch : Verdict → Controller F → List TrackInfo → ℤ → Controller F × Option ℕ
  branch worse c ladder active = downgrade F c ladder active
  branch better c ladder active = upgrade F c ladder active
  branch hold c ladder active = (record c { upgrade_count = 0; downgrade_count = 0 }, none)

  evaluate-branch :
      (c : Controller F) (ts : TrackSelector) (loss rtt : Carrier)
      → 2 ≤ length (video_ladder ts.tracks)
      → evaluate F c ts loss rtt
        ≡ branch
            (verdict (observe_rtt F c rtt) loss rtt)
            (observe_rtt F c rtt)
            (video_ladder ts.tracks)
            ts.active_id
  unfolding evaluate verdict branch
  evaluate-branch c ts loss rtt h = ground arith

  branch-Counts :
      (v : Verdict) (vs : List Verdict) (c : Controller F) (ladder : List TrackInfo) (active : ℤ)
      → Counts c vs
      → Counts (branch v c ladder active).0 (v ∷ vs)
  unfolding branch streak
  branch-Counts worse vs c ladder active k = record { down = ground arith; up = ground arith }
  branch-Counts better vs c ladder active k = record { down = ground arith; up = ground arith }
  branch-Counts hold vs c ladder active k = record { down = ground arith; up = ground arith }

  branch-wanted :
      (v : Verdict) (vs : List Verdict) (c : Controller F) (ladder : List TrackInfo) (active : ℤ)
      → Counts c vs
      → (branch v c ladder active).1 ≡ wanted (v ∷ vs) ladder active
  unfolding branch streak wanted
  branch-wanted worse vs c ladder active k = ground arith
  branch-wanted better vs c ladder active k = ground arith
  branch-wanted hold vs c ladder active k = refl

  idle-Counts :
      (c : Controller F) (ts : TrackSelector) (loss rtt : Carrier)
      → length (video_ladder ts.tracks) < 2
      → evaluate F c ts loss rtt ≡ (observe_rtt F c rtt, none)
  unfolding evaluate
  idle-Counts c ts loss rtt h = ground arith

  seen-Counts :
      (c : Controller F) (rtt : Carrier) (vs : List Verdict)
      → Counts c vs
      → Counts (observe_rtt F c rtt) vs
  seen-Counts c rtt vs k = record {
    down = (observe-counts c rtt).0 ∙ k.down;
    up = (observe-counts c rtt).1 ∙ k.up;
  }

  apply-Counts :
      (e : Event) (c : Controller F) (vs : List Verdict)
      → Counts c vs
      → Counts (apply e c) (note_down e c vs)
  unfolding reset streak
  apply-Counts (sampled ts loss rtt) c vs k =
      elim (Bool-cases (ltb (length (video_ladder ts.tracks)) 2)) [
        | inl few ↦ rw few (
            subst (λ (r : Controller F × Option ℕ). Counts r.0 vs)
              (sym (idle-Counts c ts loss rtt (ground arith))) (seen-Counts c rtt vs k))
        | inr enough ↦ rw enough (
            subst
              (λ (r : Controller F × Option ℕ).
                Counts r.0 (verdict (observe_rtt F c rtt) loss rtt ∷ vs))
              (sym (evaluate-branch c ts loss rtt (ground arith)))
              (branch-Counts (verdict (observe_rtt F c rtt) loss rtt) vs (observe_rtt F c rtt)
                (video_ladder ts.tracks) ts.active_id (seen-Counts c rtt vs k)))
      ]
  apply-Counts cleared c vs k = record { down = refl; up = refl }

  pub after-Counts : (es : List Event) → Counts (after es) (verdicts es)
  unfolding after verdicts new_controller streak
  after-Counts [] = record { down = refl; up = refl }
  after-Counts (e ∷ es) = apply-Counts e (after es) (verdicts es) (after-Counts es)

  -- After any samples and resets, with any selectors, an evaluation over at least two layers
  -- decides as the verdicts since the last reset ask for: one rung down at every second `worse` in
  -- a row, one rung up at every fifth `better` in a row, and nothing else.
  pub evaluate-wanted :
      (es : List Event) (ts : TrackSelector) (loss rtt : Carrier)
      → 2 ≤ length (video_ladder ts.tracks)
      → (evaluate F (after es) ts loss rtt).1
        ≡ wanted (verdicts (sampled ts loss rtt ∷ es)) (video_ladder ts.tracks) ts.active_id
  unfolding verdicts
  evaluate-wanted es ts loss rtt h =
      let seen : Controller F = observe_rtt F (after es) rtt in
      let ladder : List TrackInfo = video_ladder ts.tracks in
      let v : Verdict = verdict seen loss rtt in
      rw (ge→ltb (length ladder) 2 h) (
        ap (λ (r : Controller F × Option ℕ). r.1) (evaluate-branch (after es) ts loss rtt h)
        ∙ branch-wanted v (verdicts es) seen ladder ts.active_id
            (seen-Counts (after es) rtt (verdicts es) (after-Counts es)))
