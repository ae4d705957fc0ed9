-- ===== src/Degrade/Timing.antt =====
-- The timers of the degrade ladder over sequences of samples (internal/degrade/degrade.go): the
-- cooldown after a degrade, and the sustained compliance that a recovery wants.
use ppmmx.Base.{
  ℕ, ◌+◌, ◌-◌, ◌*◌, ◌≤◌, ◌<◌, ◌≡◌, ◌≢◌, refl, subst, sym, lt→ltb, true, false, none, some, List, [],
  ◌∷◌, ◌++◌, arith, All, ◌⊎◌, inl, inr, Bool-cases,
}
use mathlib.Core.List.{Memᴰ}
use ppmmx.Base.Float.{Float64}
use ppmmx.Degrade.{State, Action, action_none, action_restart, action_recover, Effect, second}
use ppmmx.Degrade.Sample.{record_sample, sample, Thresholds, loss_rate, refresh, is_stale}
use ppmmx.Degrade.Cases.{record_sample-rule, sample-rule, is_baseline, allows_layer}
use ppmmx.Degrade.Ladder.{SameRung}
use ppmmx.Degrade.Branches.{
  Reading, on_loss_cooling, on_compliance_since, on_compliance_first, counted, Keeps, on_loss-Keeps,
  on_compliance-Keeps, on_loss-timers, refresh-layers, BeganAt, Waits, on_loss-Waits,
  on_compliance-Waits, refresh-good_none, refresh-BeganAt,
}

module _ (F : Float64) (t : Thresholds F) where
  open F use {literal, lt, le}

  -- The loss rate that `Sample` computes for a reading, and the window of the thresholds.
  abbrev pub ulr_of : State → Reading → F.Carrier
  ulr_of d r = loss_rate F (r.unrecov - d.last_unrecov) (r.total - d.last_total)

  abbrev pub window_of : ℕ
  window_of = t.observation_sec * second

  abbrev pub sample_at : State → Reading → Action × State × List Effect
  sample_at d r = sample F d r.unrecov r.total t r.now

  -- A reading that is compared with the one before it, with a loss above RaisePct.
  abbrev pub IsLossy : State → Reading → Type 0
  IsLossy d r = (is_baseline d r.unrecov r.total ≡ false) × (lt t.raise_pct (ulr_of d r) ≡ true)

  -- The same with a loss at or below LowerPct.
  abbrev pub IsCompliant : State → Reading → Type 0
  IsCompliant d r = (is_baseline d r.unrecov r.total ≡ false) × (le (ulr_of d r) t.lower_pct ≡ true)

  -- A predicate of each state and the reading that it takes.
  abbrev pub Along : (State → Reading → Type 0) → State → List Reading → Type 0
  Along P d [] = Unit
  Along P d (r ∷ rs) = P d r × Along P (sample_at d r).1 rs

  abbrev pub after : State → List Reading → State
  after d [] = d
  after d (r ∷ rs) = after (sample_at d r).1 rs

  abbrev pub answers : State → List Reading → List Action
  answers d [] = []
  answers d (r ∷ rs) = (sample_at d r).0 ∷ answers (sample_at d r).1 rs

  -- A loss at or below a positive RestartPct costs no layer: the answer is not a restart, and no
  -- layer is taken away.
  pub sample-layers_held :
      (d : State) (r : Reading)
      → le t.restart_pct (literal 0 0) ≡ false
      → lt t.restart_pct (ulr_of d r) ≡ false
      → ((sample_at d r).0 ≢ action_restart) × (d.layers ≤ (sample_at d r).1.layers)
  sample-layers_held d r positive below =
      let read : State = record d { last_unrecov = r.unrecov; last_total = r.total } in
      let fresh : State = refresh read r.now in
      let calm : State = record fresh { degrade_cooldown_until = none } in
      let allowed = allows_layer F t (ulr_of d r) in
      let same = refresh-layers read r.now in
      sample-rule F (Keeps d.layers) d r.unrecov r.total t r.now (λ e. (ground arith, omega arith))
        (λ e.
          record_sample-rule F (Keeps d.layers) read (r.unrecov - d.last_unrecov)
            (r.total - d.last_total) t r.now
            (λ l. on_loss-Keeps d.layers fresh r.now window_of allowed same (rw (positive, below)))
            (λ l g. on_compliance-Keeps d.layers fresh.good_since calm r.now window_of same)
            (λ l g. ((λ h. cc), same)))

  sample-Waits :
      (start : ℕ) (d : State) (r : Reading)
      → BeganAt start d.good_since
      → start ≤ r.now
      → r.now < start + window_of
      → Waits start (sample_at d r)
  sample-Waits start d r h lo hi =
      let read : State = record d { last_unrecov = r.unrecov; last_total = r.total } in
      let fresh : State = refresh read r.now in
      let calm : State = record fresh { degrade_cooldown_until = none } in
      let began = refresh-BeganAt start read r.now h in
      sample-rule F (Waits start) d r.unrecov r.total t r.now (λ e. ((λ h. cc), h))
        (λ e.
          record_sample-rule F (Waits start) read (r.unrecov - d.last_unrecov)
            (r.total - d.last_total) t r.now
            (λ l. on_loss-Waits start fresh r.now window_of (allows_layer F t (ulr_of d r)))
            (λ l g.
              on_compliance-Waits start fresh.good_since calm r.now window_of refl began lo hi)
            (λ l g. ((λ h. cc), began)))

  waits :
      (start : ℕ) (d : State) (rs : List Reading)
      → BeganAt start d.good_since
      → All (λ r. (start ≤ r.now) × (r.now < start + window_of)) rs
      → All (λ a. a ≢ action_recover) (answers d rs)
  waits start d [] h inside = tt
  waits start d (r ∷ rs) h inside =
      let step = sample-Waits start d r h inside.0.0 inside.0.1 in
      (step.0, waits start (sample_at d r).1 rs step.1 inside.1)

  -- The timers after a reading above RaisePct: the good stretch is over, and if the answer is a
  -- step down the cooldown runs for the window.
  sample-lossy :
      (d : State) (r : Reading)
      → IsLossy d r
      → ((sample_at d r).1.good_since ≡ none)
        × (((sample_at d r).0 ≡ action_none)
            ⊎ ((sample_at d r).1.degrade_cooldown_until ≡ some (r.now + window_of)))
  unfolding sample record_sample
  sample-lossy d r (fresh_base, lossy) =
      let read : State = record d { last_unrecov = r.unrecov; last_total = r.total } in
      rw (fresh_base, lossy)
        (on_loss-timers (refresh read r.now) r.now window_of (allows_layer F t (ulr_of d r)))

  -- From a reading above RaisePct on, no recovery is answered before the window has passed,
  -- whatever the readings in it are.
  pub no_early_recovery :
      (d : State) (r : Reading) (rs : List Reading)
      → IsLossy d r
      → All (λ s. (r.now ≤ s.now) × (s.now < r.now + window_of)) rs
      → All (λ a. a ≢ action_recover) (answers (sample_at d r).1 rs)
  no_early_recovery d r rs lossy inside =
      waits r.now (sample_at d r).1 rs (subst (BeganAt r.now) (sym (sample-lossy d r lossy).0) tt)
        inside

  -- A reading that comes while the cooldown runs and the samples are not stale.
  abbrev pub InCooldown : ℕ → State → Reading → Type 0
  InCooldown end d r = IsLossy d r × (r.now < end) × (is_stale d.last_sample_at r.now ≡ false)

  sample-InCooldown :
      (end : ℕ) (d : State) (r : Reading)
      → d.degrade_cooldown_until ≡ some end
      → InCooldown end d r
      → ((sample_at d r).0 ≡ action_none)
        × SameRung d (sample_at d r).1
        × ((sample_at d r).1.degrade_cooldown_until ≡ some end)
  unfolding sample record_sample
  sample-InCooldown end d r cooling ((base, lossy), early, steady) =
      rw (base, lossy, steady)
        (rw
          (on_loss_cooling (counted d r) r.now window_of (allows_layer F t (ulr_of d r))
            (rw cooling (lt→ltb r.now end early)))
          (refl, (refl, refl, refl), cooling))

  cooldown :
      (end : ℕ) (d : State) (rs : List Reading)
      → d.degrade_cooldown_until ≡ some end
      → Along (InCooldown end) d rs
      → All (λ a. a ≡ action_none) (answers d rs) × SameRung d (after d rs)
  cooldown end d [] cooling inside = (tt, (refl, refl, refl))
  cooldown end d (r ∷ rs) cooling inside =
      let (quiet, same, still) = sample-InCooldown end d r cooling inside.0 in
      let rest = cooldown end (sample_at d r).1 rs still inside.1 in
      ((quiet, rest.0), ground (arith, rest))

  -- One step down per window: after a lossy reading that was answered by a step, further lossy
  -- readings within the window, none of them stale, are answered by nothing and leave the layers
  -- and the bitrate as the step left them.
  pub one_step_per_window :
      (d : State) (r : Reading) (rs : List Reading)
      → IsLossy d r
      → (sample_at d r).0 ≢ action_none
      → Along (InCooldown (r.now + window_of)) (sample_at d r).1 rs
      → All (λ a. a ≡ action_none) (answers (sample_at d r).1 rs)
        × SameRung (sample_at d r).1 (after (sample_at d r).1 rs)
  one_step_per_window d r rs lossy stepped inside = elim (sample-lossy d r lossy).1 [
    | inl quiet ↦ absurd (stepped quiet)
    | inr cooling ↦ cooldown (r.now + window_of) (sample_at d r).1 rs cooling inside
  ]

  -- A compliant reading that continues a stretch of samples.
  abbrev pub Continues : State → Reading → Type 0
  Continues d r = IsCompliant d r × (is_stale d.last_sample_at r.now ≡ false)

  -- Below LowerPct is not above RaisePct, if the two are in order.
  not_lossy :
      (ulr : F.Carrier)
      → lt t.lower_pct t.raise_pct ≡ true
      → le ulr t.lower_pct ≡ true
      → lt t.raise_pct ulr ≡ false
  not_lossy ulr ordered low = elim (Bool-cases (lt t.raise_pct ulr)) [
    | inl above ↦ cc (
      F.lt_not_le t.raise_pct ulr above,
      F.lt_le ulr t.raise_pct (F.le_lt_trans ulr t.lower_pct t.raise_pct low ordered),
    )
    | inr below ↦ below
  ]

  module _ (ordered : lt t.lower_pct t.raise_pct ≡ true) where
    sample-Continues :
        (since : ℕ) (d : State) (r : Reading)
        → d.good_since ≡ some since
        → Continues d r
        → (((sample_at d r).0 ≡ action_recover) × (window_of ≤ r.now - since))
          ⊎ ((r.now - since < window_of) × ((sample_at d r).1.good_since ≡ some since))
    unfolding sample record_sample
    sample-Continues since d r good ((base, low), steady) =
        rw (base, not_lossy (ulr_of d r) ordered low, low, steady, good)
          (on_compliance_since since
            (record (counted d r) { good_since = some since; degrade_cooldown_until = none }) r.now
            window_of refl)

    recovers :
        (since : ℕ) (d : State) (rs : List Reading) (r : Reading)
        → d.good_since ≡ some since
        → since + window_of ≤ r.now
        → Along Continues d (rs ++ (r ∷ []))
        → Memᴰ action_recover (answers d (rs ++ (r ∷ [])))
    recovers since d [] r good late along = elim (sample-Continues since d r good along.0) [
      | inl up ↦ Memᴰ.head (sym up.0)
      | inr more ↦ absurd (omega arith)
    ]
    recovers since d (s ∷ rs) r good late along = elim (sample-Continues since d s good along.0) [
      | inl up ↦ Memᴰ.head (sym up.0)
      | inr more ↦ Memᴰ.tail (recovers since (sample_at d s).1 rs r more.1 late along.1)
    ]

    first_good :
        (d : State) (r : Reading)
        → IsCompliant d r
        → d.good_since ≡ none
        → (sample_at d r).1.good_since ≡ some r.now
    unfolding sample record_sample
    first_good d r (base, low) none_yet =
        let read : State = record d { last_unrecov = r.unrecov; last_total = r.total } in
        rw (base, not_lossy (ulr_of d r) ordered low, low)
          (on_compliance_first (refresh read r.now).good_since
            (record (refresh read r.now) { degrade_cooldown_until = none }) r.now window_of
            (refresh-good_none read r.now none_yet))

    -- Sustained compliance recovers, if LowerPct is below RaisePct: when a stretch of compliant
    -- readings starts with no stretch running, is never stale, and its last reading comes at least
    -- the window after its first, then one of its answers is a recovery.
    pub sustained_recovery :
        (d : State) (first : Reading) (rs : List Reading) (r : Reading)
        → d.good_since ≡ none
        → IsCompliant d first
        → first.now + window_of ≤ r.now
        → Along Continues (sample_at d first).1 (rs ++ (r ∷ []))
        → Memᴰ action_recover (answers d (first ∷ rs ++ (r ∷ [])))
    sustained_recovery d first rs r none_yet low late along =
        Memᴰ.tail (
          recovers first.now (sample_at d first).1 rs r (first_good d first low none_yet) late
            along)
