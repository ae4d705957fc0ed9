-- ===== src/Degrade/Ladder.antt =====
-- The rungs of the degrade ladder: which combinations of layers and bitrate a path can reach, and
-- how each operation moves along them (internal/degrade/degrade.go).
use ppmmx.Base.{
  List, ℕ, suc, ◌+◌, ◌-◌, ◌*◌, ◌/◌, ◌≤◌, ◌<◌, ◌≡◌, refl, ◌⊎◌, Bool, false, Option, none, some,
  arith,
}
use ppmmx.Base.Int.{ℤ, pos, negsuc}
use ppmmx.Base.Float.{Float64}
use Prim.Native.String.{String}
use ppmmx.Degrade.{
  State, new_state, observe_session_layer_count, degrade, recover, bind_conn, unbind_conn, Action,
  Effect, action_none, action_degrade, action_restart, action_recover, second,
}
use ppmmx.Degrade.Sample.{
  on_loss, on_compliance, record_sample, sample, Thresholds, refresh, loss_rate,
}
use ppmmx.Degrade.Cases.{record_sample-rule, sample-rule, rebased, allows_layer}

-- The rungs that the package comment describes: the bitrate falls in steps of 20 to 60 before a
-- layer is cut, and no layer is cut at a higher bitrate.
pub record IsOnLadder (d : State) : Type 0 where
  pub bitrate_step : (d.bitrate_percent ≡ 100) ⊎ (d.bitrate_percent ≡ 80) ⊎ (d.bitrate_percent ≡ 60)
  pub layers_capped : d.layers ≤ d.max_layers
  pub layers_positive : 0 < d.max_layers → 0 < d.layers
  pub unknown_full : d.max_layers ≡ 0 → d.bitrate_percent ≡ 100
  pub layers_last : d.layers < d.max_layers → d.bitrate_percent ≡ 60

-- How many steps the state is below full quality.
abbrev pub rung : State → ℕ
rung d = (100 - d.bitrate_percent) / 20 + (d.max_layers - d.layers)

-- The lowest rung: bitrate 60 with one layer.
abbrev pub bottom : State → ℕ
bottom d = 2 + (d.max_layers - 1)

pub new_state-IsOnLadder : (path : String) → IsOnLadder (new_state path)
unfolding new_state
new_state-IsOnLadder path = ground arith

pub observe-IsOnLadder :
    (d : State) (n : ℤ) → IsOnLadder d → IsOnLadder (observe_session_layer_count d n).0
unfolding observe_session_layer_count
observe-IsOnLadder d (negsuc n) h = h
observe-IsOnLadder d (pos n) h = ground arith

pub degrade-IsOnLadder :
    (d : State) (now : ℕ) (allow : Bool) → IsOnLadder d → IsOnLadder (degrade d now allow).1
unfolding degrade
degrade-IsOnLadder d now allow h = ground arith

pub recover-IsOnLadder : (d : State) → IsOnLadder d → IsOnLadder (recover d).0
unfolding recover
recover-IsOnLadder d h = ground arith

-- One call of `degrade` on the ladder: it moves down one rung exactly unless the layer count is
-- unknown, the path is at the bottom, or the next step is a layer and layers may not be cut.
pub degrade-rung :
    (d : State) (now : ℕ) (allow : Bool)
    → IsOnLadder d
    → ((rung (degrade d now allow).1 ≡ suc (rung d)) × (0 < d.max_layers) × (rung d < bottom d))
      ⊎ ((rung (degrade d now allow).1 ≡ rung d)
          × ((d.max_layers ≡ 0) ⊎ (rung d ≡ bottom d) ⊎ ((allow ≡ false) × (2 ≤ rung d))))
unfolding degrade
degrade-rung d now allow h = ground arith

-- Where `degrade` moved a path down a rung, one `recover` brings its layers and its bitrate back.
pub recover-degrade :
    (d : State) (now : ℕ) (allow : Bool)
    → IsOnLadder d
    → rung (degrade d now allow).1 ≡ suc (rung d)
    → ((recover (degrade d now allow).1).0.layers ≡ d.layers)
      × ((recover (degrade d now allow).1).0.bitrate_percent ≡ d.bitrate_percent)
unfolding degrade recover
recover-degrade d now allow h moved = ground arith

pub bind_conn-IsOnLadder : (d : State) (conn : ℕ) → IsOnLadder d → IsOnLadder (bind_conn d conn).0
unfolding bind_conn
bind_conn-IsOnLadder d conn h = ground arith

pub unbind_conn-IsOnLadder : (d : State) (conn : ℕ) → IsOnLadder d → IsOnLadder (unbind_conn d conn)
unfolding unbind_conn
unbind_conn-IsOnLadder d conn h = ground arith

-- What an answer of `Sample` says of the ladder before and after it.
abbrev pub SameRung : State → State → Type 0
SameRung d e =
    (e.max_layers ≡ d.max_layers) × (e.layers ≡ d.layers) × (e.bitrate_percent ≡ d.bitrate_percent)

abbrev pub Answers : Action → State → State → Type 0
Answers action_none d e = SameRung d e
Answers action_degrade d e =
    (e.max_layers ≡ d.max_layers)
    × (e.layers ≡ d.layers)
    × ((d.bitrate_percent ≡ e.bitrate_percent + 20) ⊎ (e.bitrate_percent ≡ d.bitrate_percent))
Answers action_restart d e =
    (e.max_layers ≡ d.max_layers)
    × (d.layers ≡ e.layers + 1)
    × (0 < e.layers)
    × (d.bitrate_percent ≡ 60)
    × (e.bitrate_percent ≡ 60)
Answers action_recover d e =
    (e.max_layers ≡ d.max_layers) × ((rung d ≡ rung e + 1) ⊎ ((rung d ≡ 0) × (rung e ≡ 0)))

on_loss-Answers :
    (d : State) (now observation : ℕ) (allow : Bool)
    → IsOnLadder d
    → Answers (on_loss d now observation allow).0 d (on_loss d now observation allow).1
unfolding on_loss degrade
on_loss-Answers d now observation allow h = ground arith

on_loss-IsOnLadder :
    (d : State) (now observation : ℕ) (allow : Bool)
    → IsOnLadder d
    → IsOnLadder (on_loss d now observation allow).1
unfolding on_loss degrade
on_loss-IsOnLadder d now observation allow h = ground arith

on_compliance-Answers :
    (since : Option ℕ) (d : State) (now observation : ℕ)
    → IsOnLadder d
    → Answers (on_compliance since d now observation).0 d (on_compliance since d now observation).1
unfolding on_compliance recover
on_compliance-Answers none d now observation h = ground arith
on_compliance-Answers (some since) d now observation h = ground arith

on_compliance-IsOnLadder :
    (since : Option ℕ) (d : State) (now observation : ℕ)
    → IsOnLadder d
    → IsOnLadder (on_compliance since d now observation).1
unfolding on_compliance recover
on_compliance-IsOnLadder none d now observation h = ground arith
on_compliance-IsOnLadder (some since) d now observation h = ground arith

-- Both facts of one result.
abbrev Sound : State → Action × State × List Effect → Type 0
Sound d r = Answers r.0 d r.1 × IsOnLadder r.1

-- The states that differ from `d` in its counters and timers only.
abbrev SameCore : State → State → Type 0
SameCore d e = SameRung d e

Sound-SameCore :
    (d e : State) (r : Action × State × List Effect) → SameCore d e → Sound e r → Sound d r
Sound-SameCore d e (action_none, f, out) c h = ground arith
Sound-SameCore d e (action_degrade, f, out) c h = ground arith
Sound-SameCore d e (action_restart, f, out) c h = ground arith
Sound-SameCore d e (action_recover, f, out) c h = ground arith

IsOnLadder-SameCore : (d e : State) → SameCore d e → IsOnLadder d → IsOnLadder e
IsOnLadder-SameCore d e c h = ground arith

refresh-SameCore : (d : State) (now : ℕ) → SameCore d (refresh d now)
refresh-SameCore d now = ground arith

on_loss-Sound :
    (d e : State) (now observation : ℕ) (allow : Bool)
    → SameCore d e
    → IsOnLadder d
    → Sound d (on_loss e now observation allow)
on_loss-Sound d e now observation allow same h =
    let l = IsOnLadder-SameCore d e same h in
    Sound-SameCore d e (on_loss e now observation allow) same
      (on_loss-Answers e now observation allow l, on_loss-IsOnLadder e now observation allow l)

on_compliance-Sound :
    (since : Option ℕ) (d e : State) (now observation : ℕ)
    → SameCore d e
    → IsOnLadder d
    → Sound d (on_compliance since e now observation)
on_compliance-Sound since d e now observation same h =
    let l = IsOnLadder-SameCore d e same h in
    Sound-SameCore d e (on_compliance since e now observation) same (
      on_compliance-Answers since e now observation l,
      on_compliance-IsOnLadder since e now observation l,
    )

module _ (F : Float64) where
  record_sample-Sound :
      (d : State) (unrecov total : ℕ) (t : Thresholds F) (now : ℕ)
      → IsOnLadder d
      → Sound d (record_sample F d unrecov total t now)
  record_sample-Sound d unrecov total t now h =
      let fresh : State = refresh d now in
      let calm : State = record fresh { degrade_cooldown_until = none } in
      let same = refresh-SameCore d now in
      let window : ℕ = t.observation_sec * second in
      record_sample-rule F (Sound d) d unrecov total t now
        (λ e.
          on_loss-Sound d fresh now window (allows_layer F t (loss_rate F unrecov total)) same h)
        (λ e g. on_compliance-Sound fresh.good_since d calm now window same h)
        (λ e g. (same, IsOnLadder-SameCore d fresh same h))

  sample-Sound :
      (d : State) (unrecov total : ℕ) (t : Thresholds F) (now : ℕ)
      → IsOnLadder d
      → Sound d (sample F d unrecov total t now)
  sample-Sound d unrecov total t now h =
      let read : State = record d { last_unrecov = unrecov; last_total = total } in
      let l = IsOnLadder-SameCore d read (refl, refl, refl) h in
      sample-rule F (Sound d) d unrecov total t now
        (λ e. (
          (refl, refl, refl),
          IsOnLadder-SameCore d (rebased d unrecov total) (refl, refl, refl) h,
        ))
        (λ e.
          Sound-SameCore d read
            (record_sample F read (unrecov - d.last_unrecov) (total - d.last_total) t now)
            (refl, refl, refl)
            (record_sample-Sound read (unrecov - d.last_unrecov) (total - d.last_total) t now l))

  pub sample-IsOnLadder :
      (d : State) (unrecov total : ℕ) (t : Thresholds F) (now : ℕ)
      → IsOnLadder d
      → IsOnLadder (sample F d unrecov total t now).1
  sample-IsOnLadder d unrecov total t now h = (sample-Sound d unrecov total t now h).1

  -- From a state on the ladder a sample moves at most one rung, and its answer tells the move.
  -- `action_none`: layers and bitrate stay. `action_degrade`: the layers stay, and the bitrate
  -- falls by 20 or stays. `action_restart`: one layer less, at least one being left, at bitrate 60.
  -- `action_recover`: one rung up, or full quality already. `max_layers` never changes.
  pub sample-Answers :
      (d : State) (unrecov total : ℕ) (t : Thresholds F) (now : ℕ)
      → IsOnLadder d
      → Answers (sample F d unrecov total t now).0 d (sample F d unrecov total t now).1
  sample-Answers d unrecov total t now h = (sample-Sound d unrecov total t now h).0
