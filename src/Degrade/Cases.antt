-- ===== src/Degrade/Cases.antt =====
-- Case rules for `record_sample` and `sample` (internal/degrade/degrade.go): to prove a property of
-- the result, prove it of each branch.
use ppmmx.Base.{
  ℕ, ◌-◌, ◌*◌, ◌≡◌, inl, inr, Bool, true, false, not, ◌||◌, none, List, [], ltb, Bool-cases,
}
use ppmmx.Base.Float.{Float64}
use ppmmx.Degrade.{State, Action, action_none, Effect, second}
use ppmmx.Degrade.Sample.{
  on_loss, on_compliance, record_sample, sample, Thresholds, loss_rate, refresh,
}

-- The counters that a sample is compared with, once they are replaced.
abbrev pub rebased : State → ℕ → ℕ → State
rebased d cum_unrecov cum_total = record d {
  last_unrecov = cum_unrecov;
  last_total = cum_total;
  have_last_cum = true;
}

-- The test of `Sample` for a first reading or for counters that went back.
abbrev pub is_baseline : State → ℕ → ℕ → Bool
is_baseline d cum_unrecov cum_total =
    not d.have_last_cum || (ltb cum_unrecov d.last_unrecov || ltb cum_total d.last_total)

module _ (F : Float64) where
  open F use {Carrier, literal, lt, le}

  abbrev pub allows_layer : Thresholds F → Carrier → Bool
  allows_layer t ulr = le t.restart_pct (literal 0 0) || lt t.restart_pct ulr

  -- A rule for each branch of `recordSample`.
  pub record_sample-rule {ℓ} :
      (P : Action × State × List Effect → Type ℓ) (d : State) (unrecov total : ℕ) (t : Thresholds F)
      (now : ℕ)
      → (lt t.raise_pct (loss_rate F unrecov total) ≡ true
          → P (
              on_loss
                (refresh d now)
                now
                (t.observation_sec * second)
                (allows_layer t (loss_rate F unrecov total))))
      → (lt t.raise_pct (loss_rate F unrecov total) ≡ false
          → le (loss_rate F unrecov total) t.lower_pct ≡ true
          → P (
              on_compliance
                (refresh d now).good_since
                (record (refresh d now) { degrade_cooldown_until = none })
                now
                (t.observation_sec * second)))
      → (lt t.raise_pct (loss_rate F unrecov total) ≡ false
          → le (loss_rate F unrecov total) t.lower_pct ≡ false
          → P (action_none, refresh d now, []))
      → P (record_sample F d unrecov total t now)
  unfolding record_sample
  record_sample-rule P d unrecov total t now loss good dead =
      elim (Bool-cases (lt t.raise_pct (loss_rate F unrecov total))) [
        | inl e ↦ rw e (loss e)
        | inr e ↦ elim (Bool-cases (le (loss_rate F unrecov total) t.lower_pct)) [
          | inl g ↦ rw (e, g) (good e g)
          | inr g ↦ rw (e, g) (dead e g)
        ]
      ]

  -- A rule for each branch of `Sample`.
  pub sample-rule {ℓ} :
      (P : Action × State × List Effect → Type ℓ) (d : State) (cum_unrecov cum_total : ℕ)
      (t : Thresholds F) (now : ℕ)
      → (is_baseline d cum_unrecov cum_total ≡ true
          → P (action_none, rebased d cum_unrecov cum_total, []))
      → (is_baseline d cum_unrecov cum_total ≡ false
          → P (
              record_sample F
                (record d { last_unrecov = cum_unrecov; last_total = cum_total })
                (cum_unrecov - d.last_unrecov)
                (cum_total - d.last_total)
                t
                now))
      → P (sample F d cum_unrecov cum_total t now)
  unfolding sample
  sample-rule P d cum_unrecov cum_total t now base step =
      elim (Bool-cases (is_baseline d cum_unrecov cum_total)) [
        | inl e ↦ rw e (base e)
        | inr e ↦ rw e (step e)
      ]
