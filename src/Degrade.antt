-- ===== src/Degrade.antt =====
-- internal/degrade/degrade.go: the per-path degrade ladder, without the sampling (Degrade/Sample).
-- A method on `*State` returns the new state and the writes and closes it makes on WebSocket
-- connections, in order; the connections are numbered, the mutexes make each method one step
-- (Degrade/Race looks inside `BindConn`), and log lines are left out. An instant is a reading of
-- the monotonic clock in nanoseconds, and the zero `time.Time` is `none`. Layer counts and bitrate
-- percentages are only ever assigned values that are at least 0, so they are natural numbers.
pub mod Sample
pub mod Manager
pub mod Cases
pub mod Branches
pub mod Ladder
pub mod Timing
pub mod Delivery
pub mod Runs
pub mod Race
mod Tests
use Prim.Native.String.{String}
use text.Mathlib.Text.{◌==◌ as str_eq}
use ppmmx.Base.{
  ℕ, ◌+◌, ◌-◌, ◌*◌, ◌^◌, Bool, true, false, not, Option, none, some, List, [], ◌∷◌, ◌++◌, ltb, leb,
  ◌==◌, if◌then◌else◌,
}
use ppmmx.Base.Int.{ℤ, pos, negsuc}

-- time.Second, as a time.Duration
abbrev pub second : ℕ
second = 10 ^ 9

-- SampleInterval and StaleGap
abbrev pub sample_interval : ℕ
sample_interval = 6 * second

abbrev pub stale_gap : ℕ
stale_gap = 5 * sample_interval

pub record TargetStateMsg : Type 0 where
  pub msg_type : String
  pub path : String
  pub codec : String
  pub layers : ℕ
  pub bitrate_percent : ℕ
  pub latency_ms : ℕ

pub record AlertMsg : Type 0 where
  pub msg_type : String
  pub path : String
  pub reason : String

pub data Message : Type 0 where
  target_state : TargetStateMsg → Message
  alert : AlertMsg → Message

-- What a method does to a connection: WriteJSON, or Close.
pub data Effect : Type 0 where
  write : ℕ → Message → Effect
  close : ℕ → Effect

pub data Action : Type 0 where
  action_none action_degrade action_restart action_recover : Action

pub record State : Type 0 where
  pub path : String
  pub max_layers : ℕ
  pub layers : ℕ
  pub bitrate_percent : ℕ
  pub have_last_cum : Bool
  pub last_unrecov : ℕ
  pub last_total : ℕ
  pub good_since : Option ℕ
  pub last_sample_at : Option ℕ
  pub degrade_cooldown_until : Option ℕ
  pub last_alert_time : Option ℕ
  pub ws_conn : Option ℕ

-- strings.HasSuffix
has_suffix : String → String → Bool
has_suffix String.[] suffix = str_eq String.[] suffix
has_suffix (String.◌∷◌ c s) suffix =
    if str_eq (String.◌∷◌ c s) suffix then true else has_suffix s suffix

unfoldable pub codec_from_path : String → String
unfolding has_suffix
codec_from_path path =
    if has_suffix path "/h264" then "h264" else if has_suffix path "/hevc" then "hevc" else ""

unfoldable pub new_state : String → State
new_state path = record {
  path = path;
  max_layers = 0;
  layers = 0;
  bitrate_percent = 100;
  have_last_cum = false;
  last_unrecov = 0;
  last_total = 0;
  good_since = none;
  last_sample_at = none;
  degrade_cooldown_until = none;
  last_alert_time = none;
  ws_conn = none;
}

-- `latency_ms` is left at its zero value by every literal of the source.
unfoldable pub target_of : State → Message
target_of d = target_state (record {
  msg_type = "TARGET_STATE";
  path = d.path;
  codec = codec_from_path d.path;
  layers = d.layers;
  bitrate_percent = d.bitrate_percent;
  latency_ms = 0;
})

-- pushLocked
unfoldable pub push : State → Message → List Effect
push d msg = elim d.ws_conn [ none ↦ [] | some conn ↦ write conn msg ∷ [] ]

-- pushTargetStateLocked
unfoldable pub push_target_state : State → List Effect
unfolding push target_of
push_target_state d = push d (target_of d)

unfoldable pub observe_session_layer_count : State → ℤ → State × List Effect
unfolding push_target_state
observe_session_layer_count d (negsuc n) = (d, [])
observe_session_layer_count d (pos real_layers) =
    if real_layers == 0
    then (d, [])
    else let grown = record d {
      max_layers = real_layers;
      layers = real_layers;
      bitrate_percent = 100;
    } in
      if ltb d.max_layers real_layers then (grown, push_target_state grown) else (d, [])

abbrev pub alert_msg : State → Message
alert_msg d =
    alert (record { msg_type = "ALERT"; path = d.path; reason = "layer=1,bitrate=60%,仍不合规" })

-- lastAlertTime.IsZero() || now.Sub(lastAlertTime) >= 60s
abbrev pub alert_due : Option ℕ → ℕ → Bool
alert_due none now = true
alert_due (some last) now = leb (60 * second) (now - last)

-- `degrade`: whether a layer was cut, the state after it, and what was pushed.
unfoldable pub degrade : State → ℕ → Bool → Bool × State × List Effect
unfolding push_target_state
degrade d now allow_layer =
    let slower = record d { bitrate_percent = d.bitrate_percent - 20 } in
    let cut = record d { layers = d.layers - 1 } in
    let alerted = record d { last_alert_time = some now } in
    if d.max_layers == 0
    then (false, d, [])
    else if ltb 60 d.bitrate_percent
    then (false, slower, push_target_state slower)
    else if ltb 1 d.layers
    then (if not allow_layer then (false, d, []) else (true, cut, push_target_state cut))
    else if alert_due d.last_alert_time now
    then (false, alerted, push alerted (alert_msg d))
    else (false, d, [])

-- `recover`, whose `now` the source does not read.
unfoldable pub recover : State → State × List Effect
unfolding push_target_state
recover d =
    let wider = record d { layers = d.layers + 1 } in
    let faster = record d { bitrate_percent = d.bitrate_percent + 20 } in
    if ltb d.layers d.max_layers
    then (wider, push_target_state wider)
    else if ltb d.bitrate_percent 100
    then (faster, push_target_state faster)
    else (d, [])

-- The previous connection is closed if it is another one.
abbrev pub close_previous : Option ℕ → ℕ → List Effect
close_previous none conn = []
close_previous (some previous) conn = if previous == conn then [] else close previous ∷ []

unfoldable pub bind_conn : State → ℕ → State × List Effect
unfolding target_of
bind_conn d conn =
    let bound = record d { ws_conn = some conn } in
    let closed = close_previous d.ws_conn conn in
    if d.max_layers == 0
    then (bound, closed)
    else (bound, closed ++ (write conn (target_of bound) ∷ []))

abbrev pub is_bound_to : Option ℕ → ℕ → Bool
is_bound_to none conn = false
is_bound_to (some current) conn = current == conn

unfoldable pub unbind_conn : State → ℕ → State
unbind_conn d conn = if is_bound_to d.ws_conn conn then record d { ws_conn = none } else d
