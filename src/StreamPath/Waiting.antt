-- ===== src/StreamPath/Waiting.antt =====
-- internal/core/path.go: the timers, and the parts of the handlers that hold or answer a request.
use ppmmx.Base.{ℕ, ◌+◌, ◌≡◌, ap, Bool, true, false, List, [], ◌∷◌, ◌==◌, if◌then◌else◌, arith}
use ppmmx.StreamPath.{
  Conf, StreamPath, AddReaderReq, timed_out, not_initialized, Answer, given_sub_stream, failed,
  Effect, answer, Outcome, done, panic,
}
use ppmmx.StreamPath.OnDemand.{is_initial}
use ppmmx.StreamPath.Handlers.{
  fail_held, on_demand_static_source_start, on_demand_publisher_start, set_available,
  set_not_available, consume_on_hold_requests,
}
use ppmmx.StreamPath.Steps.{
  do_static_ready_timer, do_static_close_timer, do_publisher_ready_timer, do_publisher_close_timer,
  do_reload_conf, apply_conf, make_available, run, consume_and_answer, wait_for_static,
  wait_for_publisher, hold_describe, hold_add,
}
use ppmmx.StreamPath.Accounting.{
  Accounts, static_start-Accounts, static_stop-Accounts, publisher_start-Accounts,
  publisher_stop-Accounts, fail_held-Accounts, set_available-Accounts, set_not_available-Accounts,
  nothing-Accounts, then_second, consume-Accounts,
}
use ppmmx.StreamPath.Answers.{
  one_if, count, add_ids, answers, held, Keeps, count-append, add_ids-append,
}

pub panic-Accounts : (id j : ℕ) (p : StreamPath) → Accounts id j p panic
unfolding Keeps
panic-Accounts id j p = tt

pub if-Accounts :
    (id j : ℕ) (p : StreamPath) (b : Bool) (x y : Outcome)
    → Accounts id j p x
    → Accounts id j p y
    → Accounts id j p (if b then x else y)
if-Accounts id j p true x y h k = h
if-Accounts id j p false x y h k = k

-- An answer given at once.
pub answer-Accounts :
    (id x : ℕ) (p : StreamPath) (a : Answer)
    → Accounts id (one_if (x == id)) p (done p (answer x a ∷ []))
unfolding Keeps answers
answer-Accounts id x p a = omega arith

-- Where nothing on hold changes, and nothing is said.
pub silent-Accounts :
    (id : ℕ) (p q : StreamPath) (out : List Effect)
    → answers id out ≡ 0
    → held id q ≡ held id p
    → Accounts id 0 p (done q out)
unfolding Keeps
silent-Accounts id p q out e f = omega arith

module _ (id : ℕ) (p : StreamPath) where
  pub static_ready_timer-Accounts : Accounts id 0 p (do_static_ready_timer p)
  unfolding do_static_ready_timer
  static_ready_timer-Accounts =
      let q : StreamPath = record p {
        static_source = record p.static_source { ready_timer = false };
      } in
      if-Accounts id 0 p p.static_source.ready_timer _ _
        (then_second id 0 p (run (fail_held q timed_out)) _ (fail_held-Accounts id q timed_out)
          (static_stop-Accounts id))
        (nothing-Accounts id p)

  pub static_close_timer-Accounts : Accounts id 0 p (do_static_close_timer p)
  unfolding do_static_close_timer
  static_close_timer-Accounts =
      let q : StreamPath = record p {
        static_source = record p.static_source { close_timer = false };
      } in
      if-Accounts id 0 p p.static_source.close_timer _ _
        (if-Accounts id 0 p p.conf.always_available _ _ (panic-Accounts id 0 p) (
          then_second id 0 p (set_not_available q) _ (set_not_available-Accounts id q)
            (static_stop-Accounts id)))
        (nothing-Accounts id p)

  pub publisher_ready_timer-Accounts : Accounts id 0 p (do_publisher_ready_timer p)
  unfolding do_publisher_ready_timer
  publisher_ready_timer-Accounts =
      let q : StreamPath = record p { publisher = record p.publisher { ready_timer = false } } in
      if-Accounts id 0 p p.publisher.ready_timer _ _
        (then_second id 0 p (run (fail_held q timed_out)) _ (fail_held-Accounts id q timed_out)
          (publisher_stop-Accounts id))
        (nothing-Accounts id p)

  pub publisher_close_timer-Accounts : Accounts id 0 p (do_publisher_close_timer p)
  unfolding do_publisher_close_timer
  publisher_close_timer-Accounts =
      let q : StreamPath = record p { publisher = record p.publisher { close_timer = false } } in
      if-Accounts id 0 p p.publisher.close_timer _ _ (publisher_stop-Accounts id q)
        (nothing-Accounts id p)

  pub reload_conf-Accounts : (new : Conf) → Accounts id 0 p (do_reload_conf p new)
  unfolding do_reload_conf apply_conf Keeps answers
  reload_conf-Accounts new = ground arith

  -- A stream that is made, or is always there, and what goes on with it.
  pub make_available-Accounts :
      (x : ℕ) (ok : Bool) (go_on : StreamPath → Outcome)
      → ((q : StreamPath) → Accounts id (one_if (x == id)) q (go_on q))
      → Accounts id (one_if (x == id)) p (make_available p x ok go_on)
  unfolding make_available
  make_available-Accounts x ok go_on k = if-Accounts id _ p p.conf.always_available _ _ (k p) (
      if-Accounts id _ p ok _ _
        (then_second id _ p (run (set_available p)) go_on (set_available-Accounts id p) k)
        (answer-Accounts id x (record p { stream = true }) (failed not_initialized)))

  pub consume_and_answer-Accounts :
      (x : ℕ) → Accounts id (one_if (x == id)) p (consume_and_answer p x)
  consume_and_answer-Accounts x =
      then_second id _ p (run (consume_on_hold_requests p)) _ (consume-Accounts id p)
        (λ q. answer-Accounts id x q given_sub_stream)

  pub wait_for_static-Accounts :
      (x : ℕ) (hold : StreamPath → StreamPath)
      → ((q : StreamPath) → held id (hold q) ≡ one_if (x == id) + held id q)
      → Accounts id (one_if (x == id)) p (wait_for_static p hold)
  unfolding Keeps answers
  wait_for_static-Accounts x hold k =
      if-Accounts id _ p (is_initial p.static_source.state) _ _
        (then_second id _ p (on_demand_static_source_start p) _ (static_start-Accounts id p)
          (λ q. omega (arith, k q)))
        (omega (arith, k p))

  pub wait_for_publisher-Accounts :
      (x : ℕ) (hold : StreamPath → StreamPath)
      → ((q : StreamPath) → held id (hold q) ≡ one_if (x == id) + held id q)
      → Accounts id (one_if (x == id)) p (wait_for_publisher p hold)
  unfolding Keeps answers
  wait_for_publisher-Accounts x hold k =
      if-Accounts id _ p (is_initial p.publisher.state) _ _
        (then_second id _ p (on_demand_publisher_start p) _ (publisher_start-Accounts id p)
          (λ q. omega (arith, k q)))
        (omega (arith, k p))

pub hold_describe-held :
    (id x : ℕ) (q : StreamPath) → held id (hold_describe x q) ≡ one_if (x == id) + held id q
hold_describe-held id x q = omega (arith, count-append id q.describes_on_hold (x ∷ []))

pub hold_add-held :
    (id : ℕ) (r : AddReaderReq) (q : StreamPath)
    → held id (hold_add r q) ≡ one_if (r.id == id) + held id q
hold_add-held id r q = omega (
  arith,
  ap (count id) (add_ids-append q.reader_adds_on_hold (r ∷ [])),
  count-append id (add_ids q.reader_adds_on_hold) (r.id ∷ []),
)
