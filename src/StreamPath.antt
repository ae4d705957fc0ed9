-- ===== src/StreamPath.antt =====
-- internal/core/path.go: one path, the meeting point of a source and its readers. The path runs in
-- one goroutine, so a handler is one step: it returns the path after it and what it sent or called,
-- in order. Requests and authors are numbers, a timer is known by whether it is armed, and what the
-- methods of internal/stream answer is told by the event.
pub mod OnDemand
pub mod Handlers
pub mod Steps
pub mod Answers
pub mod Accounting
pub mod Waiting
pub mod Conservation
pub mod Lifetime
pub mod Soundness
pub mod Safety
pub mod Running
pub mod Stranded
pub mod Dead
mod Tests
use ppmmx.Base.{
  ℕ, Bool, true, false, not, ◌&&◌, ◌||◌, Option, none, some, List, [], ◌∷◌, ◌++◌, map, ◌==◌,
  if◌then◌else◌,
}
use OnDemand.{Demand, idle}

-- The setting `source`: "publisher", "redirect", or the URL of a static source.
pub data ConfSource : Type 0 where
  from_publisher from_redirect from_url : ConfSource

-- conf.Path, with the settings of the recorder but `record` as one value.
pub record Conf : Type 0 where
  pub source : ConfSource
  pub source_redirect : ℕ
  pub source_on_demand : Bool
  pub run_on_demand : Bool
  pub always_available : Bool
  pub override_publisher : Bool
  pub is_regexp : Bool
  pub max_readers : ℕ
  pub fallback : Option ℕ
  pub recorded : Bool
  pub recorder_settings : ℕ
  pub forward_tencent : Bool
  pub tencent_stream_key : ℕ
  pub forward_mmx : Bool
  pub mmx_targets : List ℕ

abbrev pub has_static_source : Conf → Bool
has_static_source c = elim c.source [
  | from_url ↦ true
  | from_publisher ↦ false
  | from_redirect ↦ false
]

abbrev pub has_on_demand_static_source : Conf → Bool
has_on_demand_static_source c = has_static_source c && c.source_on_demand

abbrev pub has_on_demand_publisher : Conf → Bool
has_on_demand_publisher c = c.run_on_demand

-- `pa.source`
pub data Source : Type 0 where
  no_source redirect static : Source
  publisher : ℕ → Source

pub record AddReaderReq : Type 0 where
  pub id : ℕ
  pub author : ℕ

-- tencent_enable and mmx_enable are the account-level switches. `tencent` says that there are
-- Tencent forwarders, of which there is one at least when they are started.
pub record StreamPath : Type 0 where
  pub conf : Conf
  pub tencent_enable : Bool
  pub mmx_enable : Bool
  pub source : Source
  pub stream : Bool
  pub recorder : Bool
  pub tencent : Bool
  pub mmx : List ℕ
  pub on_un_demand_hook : Bool
  pub on_not_ready_hook : Bool
  pub readers : List ℕ
  pub describes_on_hold : List ℕ
  pub reader_adds_on_hold : List AddReaderReq
  pub static_source : Demand
  pub publisher : Demand

pub data Failure : Type 0 where
  timed_out terminated no_stream_available maximum_reader_count : Failure
  not_a_publisher_path already_publishing not_initialized : Failure

pub data Answer : Type 0 where
  given_stream given_sub_stream : Answer
  -- close(req.Res), for a request that wants no more
  closed : Answer
  redirected : ℕ → Answer
  failed : Failure → Answer

pub data Effect : Type 0 where
  answer : ℕ → Answer → Effect
  start_source stop_source reload_source close_source : Effect
  close_publisher close_reader : ℕ → Effect
  request_key_frame : ℕ → Effect
  run_on_demand run_un_demand run_on_ready run_on_not_ready : Effect
  set_path_ready set_path_not_ready close_path_if_idle remove_path : Effect
  start_offline_sub_stream : Effect

-- What a handler comes to: the path and the effects, or a run-time panic.
pub data Outcome : Type 0 where
  done : StreamPath → List Effect → Outcome
  panic : Outcome

abbrev pub preceded_by : List Effect → Outcome → Outcome
preceded_by out (done p more) = done p (out ++ more)
preceded_by out panic = panic

infixl 5 ◌>>=◌
abbrev pub ◌>>=◌ : Outcome → (StreamPath → Outcome) → Outcome
done p out >>= f = preceded_by out (f p)
panic >>= f = panic

pub data Event : Type 0 where
  static_ready_timer static_close_timer publisher_ready_timer publisher_close_timer : Event
  reload_conf : Conf → Event
  -- with the answers of Stream.Initialize and SubStream.Initialize, by whether there is no error
  static_set_ready : ℕ → Bool → Bool → Event
  static_set_not_ready : ℕ → Bool → Event
  describe : ℕ → Event
  -- id, author, and the answers of Stream.Initialize, SubStream.Initialize, StartOfflineSubStream
  add_publisher : ℕ → ℕ → Bool → Bool → Bool → Event
  remove_publisher : ℕ → ℕ → Bool → Event
  add_reader : ℕ → ℕ → Event
  remove_reader : ℕ → ℕ → Event
