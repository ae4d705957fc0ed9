-- ===== src/StreamPath/Stranded.antt =====
-- internal/core/path.go: an on-demand publisher that left, when its close timer fires while
-- requests are on hold.
use ppmmx.Base.{
  ℕ, ◌+◌, ◌==◌, subst, ◌≡◌, refl, ◌∙◌, Bool, true, false, List, [], ◌∷◌, All, if◌then◌else◌, arith,
}
use ppmmx.StreamPath.{
  has_on_demand_static_source, no_source, StreamPath, Outcome, done, panic, ◌>>=◌, preceded_by,
  close_path_if_idle, Event, static_ready_timer, static_close_timer, publisher_ready_timer,
  publisher_close_timer, reload_conf, static_set_ready, static_set_not_ready, describe,
  add_publisher, remove_publisher, add_reader, remove_reader,
}
use ppmmx.StreamPath.OnDemand.{initial, closing}
use ppmmx.StreamPath.Handlers.{on_demand_publisher_stop}
use ppmmx.StreamPath.Steps.{
  do_static_ready_timer, do_static_close_timer, do_publisher_ready_timer, do_publisher_close_timer,
  do_remove_publisher, do_remove_reader, release_demands, should_close, close_if_idle, step,
  run_inner,
}
use ppmmx.StreamPath.Answers.{answers, held, asked, one_if, answers-append}
use ppmmx.StreamPath.Conservation.{asked_by}
use ppmmx.StreamPath.Soundness.{IsSound}

-- All that can happen but a request for the stream, a source, or new settings.
abbrev pub is_quiet : Event → Bool
is_quiet static_ready_timer = true
is_quiet static_close_timer = true
is_quiet publisher_ready_timer = true
is_quiet publisher_close_timer = true
is_quiet (describe id) = false
is_quiet (remove_publisher id author ok) = true
is_quiet (add_reader id author) = false
is_quiet (remove_reader id author) = true
is_quiet (reload_conf new) = false
is_quiet (static_set_ready id stream_ok sub_ok) = false
is_quiet (static_set_not_ready id ok) = false
is_quiet (add_publisher id author stream_ok sub_ok ok) = false

-- There is no publisher, its command does not run, and no timer is armed.
pub record IsStranded (p : StreamPath) : Type 0 where
  pub gone : p.source ≡ no_source
  pub no_stream : p.stream ≡ false
  pub not_static : has_on_demand_static_source p.conf ≡ false
  pub state : p.publisher.state ≡ initial
  pub ready_timer : p.publisher.ready_timer ≡ false
  pub close_timer : p.publisher.close_timer ≡ false
  pub static_ready_timer : p.static_source.ready_timer ≡ false
  pub static_close_timer : p.static_source.close_timer ≡ false

-- An outcome in which `n` requests with that id wait in such a state, and `m` were answered.
unfoldable pub StillStranded : ℕ → ℕ → ℕ → Outcome → Type 0
StillStranded id m n (done q out) = IsStranded q × (answers id out ≡ m) × (held id q ≡ n)
StillStranded id m n panic = ⊥

module _ (id : ℕ) (p : StreamPath) (s : IsStranded p) where
  idle-StillStranded : StillStranded id 0 (held id p) (close_if_idle p)
  unfolding StillStranded answers
  idle-StillStranded = (s, closes (should_close p), refl)
    where
      closes : (b : Bool) → answers id (if b then close_path_if_idle ∷ [] else []) ≡ 0
      closes true = refl
      closes false = refl

  remove_reader-StillStranded :
      (x a : ℕ) → StillStranded id (one_if (x == id)) (held id p) (do_remove_reader p x a)
  unfolding do_remove_reader release_demands StillStranded answers
  remove_reader-StillStranded x a = ground arith

  remove_publisher-StillStranded :
      (x a : ℕ) (ok : Bool)
      → StillStranded id (one_if (x == id)) (held id p) (do_remove_publisher p x a ok)
  unfolding do_remove_publisher StillStranded answers
  remove_publisher-StillStranded x a ok = ground arith

  timers-StillStranded :
      StillStranded id 0 (held id p) (do_static_ready_timer p)
      × StillStranded id 0 (held id p) (do_static_close_timer p)
      × StillStranded id 0 (held id p) (do_publisher_ready_timer p)
      × StillStranded id 0 (held id p) (do_publisher_close_timer p)
  unfolding do_static_ready_timer do_static_close_timer do_publisher_ready_timer
      do_publisher_close_timer StillStranded answers
  timers-StillStranded = ground arith

then-StillStranded :
    (id m j n : ℕ) (o : Outcome) (f : StreamPath → Outcome)
    → StillStranded id m n o
    → ((q : StreamPath) → IsStranded q → StillStranded id j (held id q) (f q))
    → StillStranded id (m + j) n (o >>= f)
unfolding StillStranded
then-StillStranded id m j n (done q out) f (s, said, same) k = after (f q) (k q s)
  where
    after :
        (o : Outcome)
        → StillStranded id j (held id q) o
        → StillStranded id (m + j) n (preceded_by out o)
    after (done r more) (s', said', same') =
        (s', omega (arith, answers-append id out more, said, said'), same' ∙ same)
    after panic h = h
then-StillStranded id m j n panic f h k = absurd h

then_idle :
    (id m n : ℕ) (o : Outcome) → StillStranded id m n o → StillStranded id m n (o >>= close_if_idle)
then_idle id m n o h =
    subst (λ (k : ℕ). StillStranded id k n (o >>= close_if_idle)) (omega arith)
      (then-StillStranded id m 0 n o close_if_idle h (idle-StillStranded id))

step-StillStranded :
    (id : ℕ) (p : StreamPath) (e : Event)
    → IsStranded p
    → is_quiet e ≡ true
    → StillStranded id (asked id e) (held id p) (step p e)
unfolding step
step-StillStranded id p static_ready_timer s h =
    then_idle id 0 (held id p) (do_static_ready_timer p) (timers-StillStranded id p s).0
step-StillStranded id p static_close_timer s h =
    then_idle id 0 (held id p) (do_static_close_timer p) (timers-StillStranded id p s).1
step-StillStranded id p publisher_ready_timer s h =
    then_idle id 0 (held id p) (do_publisher_ready_timer p) (timers-StillStranded id p s).2
step-StillStranded id p publisher_close_timer s h = (timers-StillStranded id p s).3
step-StillStranded id p (remove_publisher x a ok) s h =
    then_idle id _ (held id p) (do_remove_publisher p x a ok)
      (remove_publisher-StillStranded id p s x a ok)
step-StillStranded id p (remove_reader x a) s h = remove_reader-StillStranded id p s x a
step-StillStranded id p (describe x) s h = cc
step-StillStranded id p (add_reader x a) s h = cc
step-StillStranded id p (reload_conf new) s h = cc
step-StillStranded id p (static_set_ready x stream_ok sub_ok) s h = cc
step-StillStranded id p (static_set_not_ready x ok) s h = cc
step-StillStranded id p (add_publisher x a stream_ok sub_ok ok) s h = cc

stop_strands :
    (id : ℕ) (p : StreamPath)
    → IsSound p
    → p.source ≡ no_source
    → p.stream ≡ false
    → p.publisher.state ≡ closing
    → StillStranded id 0 (held id p) (step p publisher_close_timer)
unfolding step do_publisher_close_timer on_demand_publisher_stop StillStranded answers
stop_strands id p s gone no_stream state = ground arith

run_inner-StillStranded :
    (id : ℕ) (p : StreamPath) (es : List Event)
    → IsStranded p
    → All (λ e. is_quiet e ≡ true) es
    → StillStranded id (asked_by id es) (held id p) (run_inner p es)
unfolding run_inner StillStranded answers
run_inner-StillStranded id p [] s q = (s, refl, refl)
run_inner-StillStranded id p (e ∷ es) s (q, qs) =
    then-StillStranded id (asked id e) (asked_by id es) (held id p) (step p e) _
      (step-StillStranded id p e s q) (λ r s'. run_inner-StillStranded id r es s' qs)

-- In a sound state with an on-demand publisher that left and whose close timer is armed, the timer
-- leaves the requests on hold unanswered, with its command stopped and no timer armed that could
-- answer them: whatever happens next but a request for the stream, a source or new settings, the same
-- ones wait, and only requests that come with these events (to remove a publisher or a reader) are
-- answered.
pub close_timer-StillStranded :
    (id : ℕ) (p : StreamPath) (es : List Event)
    → IsSound p
    → p.source ≡ no_source
    → p.stream ≡ false
    → p.publisher.state ≡ closing
    → All (λ e. is_quiet e ≡ true) es
    → StillStranded id (asked_by id es) (held id p) (run_inner p (publisher_close_timer ∷ es))
unfolding run_inner
close_timer-StillStranded id p es s gone no_stream state quiet =
    subst (λ (m : ℕ). StillStranded id m (held id p) (run_inner p (publisher_close_timer ∷ es)))
      (omega arith)
      (then-StillStranded id 0 (asked_by id es) (held id p) (step p publisher_close_timer) _ stopped
        (λ r s'. run_inner-StillStranded id r es s' quiet))
  where
    stopped : StillStranded id 0 (held id p) (step p publisher_close_timer)
    stopped = stop_strands id p s gone no_stream state
