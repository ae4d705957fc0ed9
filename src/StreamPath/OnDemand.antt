-- ===== src/StreamPath/OnDemand.antt =====
-- internal/core/path.go: the on-demand state of a static source, or of a publisher, with its two
-- timers. The code has these operations twice, once for each.
use ppmmx.Base.{Bool, true, false}

-- pathOnDemandState
pub data DemandState : Type 0 where
  initial waiting_ready ready closing : DemandState

pub record Demand : Type 0 where
  pub state : DemandState
  pub ready_timer : Bool
  pub close_timer : Bool

abbrev pub idle : Demand
idle = record { state = initial; ready_timer = false; close_timer = false }

abbrev pub is_initial : DemandState → Bool
is_initial initial = true
is_initial waiting_ready = false
is_initial ready = false
is_initial closing = false

abbrev pub is_ready : DemandState → Bool
is_ready initial = false
is_ready waiting_ready = false
is_ready ready = true
is_ready closing = false

abbrev pub is_waiting : DemandState → Bool
is_waiting initial = false
is_waiting waiting_ready = true
is_waiting ready = false
is_waiting closing = false

abbrev pub is_closing : DemandState → Bool
is_closing initial = false
is_closing waiting_ready = false
is_closing ready = false
is_closing closing = true

-- Start: the ready timer is set.
abbrev pub start : Demand → Demand
start d = record d { state = waiting_ready; ready_timer = true }

-- ScheduleClose: the close timer is set.
abbrev pub schedule_close : Demand → Demand
schedule_close d = record d { state = closing; close_timer = true }

-- The source is there: the ready timer is stopped, and the closing scheduled until a reader comes.
abbrev pub arrived : Demand → Demand
arrived d = schedule_close (record d { ready_timer = false })

-- Stop
abbrev pub stop : Demand → Demand
stop d = elim d.state [
  | closing ↦ record d { state = initial; close_timer = false }
  | initial ↦ record d { state = initial }
  | waiting_ready ↦ record d { state = initial }
  | ready ↦ record d { state = initial }
]

-- A reader came: the closing is called off.
abbrev pub keep : Demand → Demand
keep d = elim d.state [
  | closing ↦ record d { state = ready; close_timer = false }
  | initial ↦ d
  | waiting_ready ↦ d
  | ready ↦ d
]

-- The last reader left.
abbrev pub unneeded : Demand → Demand
unneeded d = elim d.state [
  | ready ↦ schedule_close d
  | initial ↦ d
  | waiting_ready ↦ d
  | closing ↦ d
]
