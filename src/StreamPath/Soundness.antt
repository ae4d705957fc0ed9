-- ===== src/StreamPath/Soundness.antt =====
-- internal/core/path.go: the states that a path can be in.
use ppmmx.Base.{◌≤◌, ◌≡◌, ◌⊎◌, Bool, true, false, not, ◌||◌, [], length}
use ppmmx.StreamPath.{
  Conf, ConfSource, from_publisher, from_redirect, from_url, has_static_source,
  has_on_demand_static_source, Source, no_source, redirect, static, publisher, StreamPath, Outcome,
  done, panic,
}
use ppmmx.StreamPath.OnDemand.{Demand, is_initial, is_waiting, is_ready, is_closing}

-- What the validation of the configuration leaves.
pub record IsValid (c : Conf) : Type 0 where
  pub always :
      (c.always_available ≡ false) ⊎ ((c.source_on_demand ≡ false) × (c.run_on_demand ≡ false))
  pub publishers : (c.run_on_demand ≡ false) ⊎ (has_static_source c ≡ false)

abbrev pub source_fits : ConfSource → Source → Bool
source_fits from_publisher no_source = true
source_fits from_publisher (publisher a) = true
source_fits from_publisher redirect = false
source_fits from_publisher static = false
source_fits from_redirect redirect = true
source_fits from_redirect no_source = false
source_fits from_redirect static = false
source_fits from_redirect (publisher a) = false
source_fits from_url static = true
source_fits from_url no_source = false
source_fits from_url redirect = false
source_fits from_url (publisher a) = false

abbrev pub is_publisher : Source → Bool
is_publisher (publisher a) = true
is_publisher no_source = false
is_publisher redirect = false
is_publisher static = false

-- A timer is armed in the state that waits for it, and only there.
pub record HasTimers (d : Demand) : Type 0 where
  pub ready_timer : d.ready_timer ≡ is_waiting d.state
  pub close_timer : d.close_timer ≡ is_closing d.state

pub record IsSound (p : StreamPath) : Type 0 where
  pub valid : IsValid p.conf
  pub fits : source_fits p.conf.source p.source ≡ true
  pub hook : (p.stream ≡ false) ⊎ (p.on_not_ready_hook ≡ true)
  pub static_timers : HasTimers p.static_source
  pub publisher_timers : HasTimers p.publisher
  pub un_demand_hook : p.on_un_demand_hook ≡ not (is_initial p.publisher.state)
  -- An on-demand source is active only with a stream.
  pub demanded :
      ((has_on_demand_static_source p.conf ≡ true)
        × ((p.stream ≡ true)
            ⊎ (is_ready p.static_source.state || is_closing p.static_source.state ≡ false)))
      ⊎ ((has_on_demand_static_source p.conf ≡ false) × (is_initial p.static_source.state ≡ true))
  pub published : (is_publisher p.source ≡ false) ⊎ (p.stream ≡ true)
  pub always : (p.conf.always_available ≡ false) ⊎ (p.stream ≡ true)
  pub limit : (p.conf.max_readers ≡ 0) ⊎ (length p.readers ≤ p.conf.max_readers)
  pub reached : (p.readers ≡ []) ⊎ (p.stream ≡ true)

-- An outcome that is no panic, in a state of that kind.
unfoldable pub Ends : (StreamPath → Type 0) → Outcome → Type 0
Ends P (done q out) = P q
Ends P panic = ⊥

abbrev pub Fine : Outcome → Type 0
Fine o = Ends IsSound o
