-- ===== src/StreamPath/Dead.antt =====
-- internal/core/path.go: a path with a stream and without the static source that should feed it.
pub mod Reached
use ppmmx.Base.{
  ℕ, ◌+◌, ◌==◌, subst, ◌≡◌, refl, sym, ap, ◌∙◌, Bool, true, false, List, [], ◌∷◌, ◌++◌, All,
  if◌then◌else◌, arith,
}
use ppmmx.StreamPath.{
  has_on_demand_static_source, static, StreamPath, given_stream, failed, not_initialized, timed_out,
  Answer, AddReaderReq, ConfSource, from_url, from_redirect, from_publisher, Source, no_source,
  redirect, publisher, Effect, answer, start_source, Outcome, done, panic, ◌>>=◌, preceded_by,
  close_path_if_idle, Event, static_ready_timer, static_close_timer, publisher_ready_timer,
  publisher_close_timer, reload_conf, static_set_ready, static_set_not_ready, describe,
  add_publisher, remove_publisher, add_reader, remove_reader, close_publisher, close_reader,
  request_key_frame, stop_source, reload_source, close_source, run_on_demand, run_un_demand,
  run_on_ready, run_on_not_ready, set_path_ready, set_path_not_ready, remove_path,
  start_offline_sub_stream,
}
use ppmmx.StreamPath.OnDemand.{initial, waiting_ready, is_waiting, is_closing}
use ppmmx.StreamPath.Handlers.{
  answer_describes, answer_adds, add_reader_post, keep_demands, set_available, fail_held,
  on_demand_static_source_stop,
}
use ppmmx.StreamPath.Steps.{
  do_static_ready_timer, do_static_close_timer, do_publisher_ready_timer, do_publisher_close_timer,
  do_describe, do_add_publisher, do_add_reader, do_remove_publisher, do_remove_reader,
  do_static_set_ready, make_available, static_online, release_demands, should_close, close_if_idle,
  step, run_inner,
}
use ppmmx.StreamPath.Answers.{
  answers, held, asked, one_if, answers-append, answers-describes, answers-adds,
}
use ppmmx.StreamPath.Conservation.{asked_by}
use ppmmx.StreamPath.Soundness.{IsSound, source_fits}

-- All that can happen but a message of the source, which was stopped, or new settings.
abbrev pub is_without_source : Event → Bool
is_without_source static_ready_timer = true
is_without_source static_close_timer = true
is_without_source publisher_ready_timer = true
is_without_source publisher_close_timer = true
is_without_source (describe id) = true
is_without_source (remove_publisher id author ok) = true
is_without_source (add_reader id author) = true
is_without_source (remove_reader id author) = true
is_without_source (add_publisher id author stream_ok sub_ok ok) = true
is_without_source (reload_conf new) = false
is_without_source (static_set_ready id stream_ok sub_ok) = false
is_without_source (static_set_not_ready id ok) = false

-- There is a stream, its source was not started, and no timer is armed.
pub record IsDead (p : StreamPath) : Type 0 where
  pub source : p.source ≡ static
  pub stream : p.stream ≡ true
  pub on_demand : has_on_demand_static_source p.conf ≡ true
  pub state : p.static_source.state ≡ initial
  pub ready_timer : p.static_source.ready_timer ≡ false
  pub close_timer : p.static_source.close_timer ≡ false
  pub publisher_ready_timer : p.publisher.ready_timer ≡ false
  pub publisher_close_timer : p.publisher.close_timer ≡ false
  pub describes : p.describes_on_hold ≡ []
  pub reader_adds : p.reader_adds_on_hold ≡ []

abbrev started_by : Effect → ℕ
started_by start_source = 1
started_by (answer x a) = 0
started_by (close_publisher x) = 0
started_by (close_reader x) = 0
started_by (request_key_frame x) = 0
started_by stop_source = 0
started_by reload_source = 0
started_by close_source = 0
started_by run_on_demand = 0
started_by run_un_demand = 0
started_by run_on_ready = 0
started_by run_on_not_ready = 0
started_by set_path_ready = 0
started_by set_path_not_ready = 0
started_by close_path_if_idle = 0
started_by remove_path = 0
started_by start_offline_sub_stream = 0

-- How often the source is started.
unfoldable pub starts : List Effect → ℕ
starts [] = 0
starts (e ∷ es) = started_by e + starts es

pub starts-append : (xs ys : List Effect) → starts (xs ++ ys) ≡ starts xs + starts ys
unfolding starts
starts-append [] ys = omega arith
starts-append (x ∷ xs) ys = omega (arith, starts-append xs ys)

-- An outcome in such a state, in which the request was answered `m` times and the source was not
-- started.
unfoldable pub StillDead : ℕ → ℕ → Outcome → Type 0
StillDead id m (done q out) = IsDead q × (answers id out ≡ m) × (starts out ≡ 0)
StillDead id m panic = ⊥

pub preceded-StillDead :
    (id m j : ℕ) (out : List Effect) (o : Outcome)
    → answers id out ≡ m
    → starts out ≡ 0
    → StillDead id j o
    → StillDead id (m + j) (preceded_by out o)
unfolding StillDead
preceded-StillDead id m j out (done q more) said none_started (s, said', none_started') = (
  s,
  omega (arith, answers-append id out more, said, said'),
  omega (arith, starts-append out more, none_started, none_started'),
)
preceded-StillDead id m j out panic said none_started h = h

then-StillDead :
    (id m j : ℕ) (o : Outcome) (f : StreamPath → Outcome)
    → StillDead id m o
    → ((q : StreamPath) → IsDead q → StillDead id j (f q))
    → StillDead id (m + j) (o >>= f)
unfolding StillDead
then-StillDead id m j (done q out) f (s, said, none_started) k =
    preceded-StillDead id m j out (f q) said none_started (k q s)
then-StillDead id m j panic f h k = absurd h

module _ (id : ℕ) (p : StreamPath) (s : IsDead p) where
  idle-StillDead : StillDead id 0 (close_if_idle p)
  unfolding StillDead answers starts
  idle-StillDead = (s, closes (should_close p), not_started (should_close p))
    where
      closes : (b : Bool) → answers id (if b then close_path_if_idle ∷ [] else []) ≡ 0
      closes true = refl
      closes false = refl

      not_started : (b : Bool) → starts (if b then close_path_if_idle ∷ [] else []) ≡ 0
      not_started true = refl
      not_started false = refl

  timers-StillDead :
      StillDead id 0 (do_static_ready_timer p)
      × StillDead id 0 (do_static_close_timer p)
      × StillDead id 0 (do_publisher_ready_timer p)
      × StillDead id 0 (do_publisher_close_timer p)
  unfolding do_static_ready_timer do_static_close_timer do_publisher_ready_timer
      do_publisher_close_timer StillDead answers starts
  timers-StillDead = ground arith

  describe-StillDead : (x : ℕ) → StillDead id (one_if (x == id)) (do_describe p x)
  unfolding do_describe StillDead answers starts
  describe-StillDead x = ground arith

  add_publisher-StillDead :
      (x a : ℕ) (stream_ok sub_ok ok : Bool)
      → StillDead id (one_if (x == id)) (do_add_publisher p x a stream_ok sub_ok ok)
  unfolding do_add_publisher StillDead answers starts
  add_publisher-StillDead x a stream_ok sub_ok ok = ground arith

  add_reader-StillDead :
      (x a : ℕ) → StillDead id (one_if (x == id)) (do_add_reader p (record { id = x; author = a }))
  unfolding do_add_reader add_reader_post keep_demands StillDead answers starts
  add_reader-StillDead x a = ground arith

  remove_reader-StillDead : (x a : ℕ) → StillDead id (one_if (x == id)) (do_remove_reader p x a)
  unfolding do_remove_reader release_demands StillDead answers starts
  remove_reader-StillDead x a = ground arith

  remove_publisher-StillDead :
      (x a : ℕ) (ok : Bool) → StillDead id (one_if (x == id)) (do_remove_publisher p x a ok)
  unfolding do_remove_publisher StillDead answers starts
  remove_publisher-StillDead x a ok = ground arith

then_idle : (id m : ℕ) (o : Outcome) → StillDead id m o → StillDead id m (o >>= close_if_idle)
then_idle id m o h =
    subst (λ (k : ℕ). StillDead id k (o >>= close_if_idle)) (omega arith)
      (then-StillDead id m 0 o close_if_idle h (idle-StillDead id))

step-StillDead :
    (id : ℕ) (p : StreamPath) (e : Event)
    → IsDead p
    → is_without_source e ≡ true
    → StillDead id (asked id e) (step p e)
unfolding step
step-StillDead id p static_ready_timer s h = then_idle id 0 _ (timers-StillDead id p s).0
step-StillDead id p static_close_timer s h = then_idle id 0 _ (timers-StillDead id p s).1
step-StillDead id p publisher_ready_timer s h = then_idle id 0 _ (timers-StillDead id p s).2
step-StillDead id p publisher_close_timer s h = (timers-StillDead id p s).3
step-StillDead id p (describe x) s h = then_idle id _ _ (describe-StillDead id p s x)
step-StillDead id p (remove_publisher x a ok) s h =
    then_idle id _ _ (remove_publisher-StillDead id p s x a ok)
step-StillDead id p (add_publisher x a stream_ok sub_ok ok) s h =
    then_idle id _ _ (add_publisher-StillDead id p s x a stream_ok sub_ok ok)
step-StillDead id p (add_reader x a) s h = then_idle id _ _ (add_reader-StillDead id p s x a)
step-StillDead id p (remove_reader x a) s h = remove_reader-StillDead id p s x a
step-StillDead id p (reload_conf new) s h = cc
step-StillDead id p (static_set_ready x stream_ok sub_ok) s h = cc
step-StillDead id p (static_set_not_ready x ok) s h = cc

pub run_inner-StillDead :
    (id : ℕ) (p : StreamPath) (es : List Event)
    → IsDead p
    → All (λ e. is_without_source e ≡ true) es
    → StillDead id (asked_by id es) (run_inner p es)
unfolding run_inner StillDead answers starts
run_inner-StillDead id p [] s h = (s, refl, refl)
run_inner-StillDead id p (e ∷ es) s (h, hs) =
    then-StillDead id (asked id e) (asked_by id es) (step p e) _ (step-StillDead id p e s h)
      (λ r s'. run_inner-StillDead id r es s' hs)
