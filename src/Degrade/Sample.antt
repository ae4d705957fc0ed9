-- ===== src/Degrade/Sample.antt =====
-- internal/degrade/degrade.go: `Sample` and `recordSample`, the loss samples that drive the ladder.
-- `now` is what time.Now() returns. The configuration is refused unless `degradeObservationSec` is
-- positive (internal/conf/conf.go), so it is a natural number, and a difference of instants is
-- only compared with positive durations, so the subtraction that stops at 0 gives the same answers.
use ppmmx.Base.{
  ℕ, ◌+◌, ◌-◌, ◌*◌, Bool, true, false, not, ◌||◌, Option, none, some, List, [], ltb, leb,
  if◌then◌else◌,
}
use ppmmx.Base.Float.{Float64}
use ppmmx.Degrade.{
  State, Action, action_none, action_degrade, action_restart, action_recover, Effect, degrade,
  recover, second, stale_gap,
}

-- now.Before(t), with the zero time before every reading
abbrev pub before : ℕ → Option ℕ → Bool
before now none = false
before now (some t) = ltb now t

-- !last.IsZero() && now.Sub(last) > StaleGap
abbrev pub is_stale : Option ℕ → ℕ → Bool
is_stale none now = false
is_stale (some last) now = ltb stale_gap (now - last)

-- The timers at the start of `recordSample`.
abbrev pub refresh : State → ℕ → State
refresh d now =
    if is_stale d.last_sample_at now
    then record d { good_since = none; degrade_cooldown_until = none; last_sample_at = some now }
    else record d { last_sample_at = some now }

-- The branch of a sample above RaisePct.
unfoldable pub on_loss : State → ℕ → ℕ → Bool → Action × State × List Effect
on_loss d now observation allow_layer =
    let bad = record d { good_since = none } in
    let (restarted, moved, out) = degrade bad now allow_layer in
    let cooling = record moved { degrade_cooldown_until = some (now + observation) } in
    if before now d.degrade_cooldown_until
    then (action_none, bad, [])
    else (if restarted then action_restart else action_degrade, cooling, out)

-- The branch of a sample at or below LowerPct, by the start of the good stretch.
unfoldable pub on_compliance : Option ℕ → State → ℕ → ℕ → Action × State × List Effect
on_compliance none d now observation = (action_none, record d { good_since = some now }, [])
on_compliance (some since) d now observation =
    let (moved, out) = recover d in
    if leb observation (now - since)
    then (action_recover, record moved { good_since = some now }, out)
    else (action_none, d, [])

module _ (F : Float64) where
  open F use {Carrier, of_uint64, literal, mul, div, lt, le}

  pub record Thresholds : Type 0 where
    pub raise_pct : Carrier
    pub lower_pct : Carrier
    pub restart_pct : Carrier
    pub observation_sec : ℕ

  unfoldable pub loss_rate : ℕ → ℕ → Carrier
  loss_rate unrecov_delta total_delta =
      if ltb 0 total_delta
      then mul (div (of_uint64 unrecov_delta) (of_uint64 total_delta)) (literal 100 0)
      else literal 0 0

  -- The window, time.Duration(ObservationSec)*time.Second, is taken below the largest time.Duration,
  -- some 292 years: no wrap is modelled.
  unfoldable pub record_sample : State → ℕ → ℕ → Thresholds → ℕ → Action × State × List Effect
  record_sample d unrecov_delta total_delta t now =
      let fresh = refresh d now in
      let ulr = loss_rate unrecov_delta total_delta in
      let observation = t.observation_sec * second in
      let allow_layer = le t.restart_pct (literal 0 0) || lt t.restart_pct ulr in
      let compliant = record fresh { degrade_cooldown_until = none } in
      if lt t.raise_pct ulr
      then on_loss fresh now observation allow_layer
      else if le ulr t.lower_pct
      then on_compliance compliant.good_since compliant now observation
      else (action_none, fresh, [])

  unfoldable pub sample : State → ℕ → ℕ → Thresholds → ℕ → Action × State × List Effect
  sample d cum_unrecov cum_total t now =
      let based = record d {
        last_unrecov = cum_unrecov;
        last_total = cum_total;
        have_last_cum = true;
      } in
      if not d.have_last_cum || (ltb cum_unrecov d.last_unrecov || ltb cum_total d.last_total)
      then (action_none, based, [])
      else record_sample (record d { last_unrecov = cum_unrecov; last_total = cum_total })
          (cum_unrecov - d.last_unrecov) (cum_total - d.last_total) t now
