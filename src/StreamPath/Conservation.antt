-- ===== src/StreamPath/Conservation.antt =====
-- internal/core/path.go: over any events, every request is answered once or still waits.
use ppmmx.Base.{
  ℕ, ◌+◌, ◌≡◌, refl, subst, Bool, not, ◌&&◌, List, [], ◌∷◌, ◌==◌, if◌then◌else◌, arith,
}
use ppmmx.StreamPath.{
  has_on_demand_static_source, has_on_demand_publisher, close_publisher, Source, no_source,
  redirect, static, publisher, StreamPath, AddReaderReq, not_initialized, not_a_publisher_path,
  already_publishing, no_stream_available, given_stream, redirected, closed, failed, answer,
  Outcome, done, ◌>>=◌, Event, static_ready_timer, static_close_timer, publisher_ready_timer,
  publisher_close_timer, reload_conf, static_set_ready, static_set_not_ready, describe,
  add_publisher, remove_publisher, add_reader, remove_reader,
}
use ppmmx.StreamPath.OnDemand.{is_initial, arrived}
use ppmmx.StreamPath.Handlers.{is_redirect, go_offline, execute_remove_publisher}
use ppmmx.StreamPath.Steps.{
  do_static_ready_timer, do_static_close_timer, do_publisher_ready_timer, make_room, static_online,
  publisher_online, do_static_set_ready, do_static_set_not_ready, do_describe, do_remove_publisher,
  do_add_publisher, do_add_reader, do_remove_reader, release_demands, step, run_inner,
  consume_and_answer, fall_back, is_author, takes_publishers, hold_describe, hold_add,
}
use ppmmx.StreamPath.Accounting.{
  Accounts, static_stop-Accounts, go_offline-Accounts, nothing-Accounts, close_if_idle-Accounts,
  then_second, then_first, same_held, remove_publisher-Accounts, add_reader_post-Accounts,
}
use ppmmx.StreamPath.Waiting.{
  panic-Accounts, if-Accounts, answer-Accounts, silent-Accounts, static_ready_timer-Accounts,
  static_close_timer-Accounts, publisher_ready_timer-Accounts, publisher_close_timer-Accounts,
  reload_conf-Accounts, make_available-Accounts, consume_and_answer-Accounts,
  wait_for_static-Accounts, wait_for_publisher-Accounts, hold_describe-held, hold_add-held,
}
use ppmmx.StreamPath.Answers.{one_if, answers, held, asked, Keeps, then-Keeps}

module _ (id : ℕ) (p : StreamPath) where
  static_online-Accounts :
      (x : ℕ) (ok : Bool) → Accounts id (one_if (x == id)) p (static_online x ok p)
  unfolding static_online
  static_online-Accounts x ok =
      if-Accounts id _ p ok _ _
        (same_held id _ p q (consume_and_answer q x) same (consume_and_answer-Accounts id q x))
        (answer-Accounts id x p (failed not_initialized))
    where
      q : StreamPath
      q =
          if has_on_demand_static_source p.conf
          then record p { static_source = arrived p.static_source }
          else p

      same : held id q ≡ held id p
      same = ground arith

  publisher_online-Accounts :
      (x author : ℕ) (ok : Bool) → Accounts id (one_if (x == id)) p (publisher_online x author ok p)
  unfolding publisher_online
  publisher_online-Accounts x author ok =
      if-Accounts id _ p ok _ _
        (same_held id _ p q (consume_and_answer q x) same (consume_and_answer-Accounts id q x))
        (answer-Accounts id x p (failed not_initialized))
    where
      q : StreamPath
      q =
          if has_on_demand_publisher p.conf && not (is_initial p.publisher.state)
          then record p { source = publisher author; publisher = arrived p.publisher }
          else record p { source = publisher author }

      same : held id q ≡ held id p
      same = ground arith

abbrev closing : ℕ → StreamPath → Outcome
closing x q = done q (answer x closed ∷ [])

module _ (id : ℕ) (p : StreamPath) where
  set_not_ready-Accounts :
      (x : ℕ) (ok : Bool) → Accounts id (one_if (x == id)) p (do_static_set_not_ready p x ok)
  unfolding do_static_set_not_ready
  set_not_ready-Accounts x ok =
      then_first id _ p (go_offline p ok >>= closing x) _
        (then_second id _ p (go_offline p ok) (closing x) (go_offline-Accounts id p ok)
          (λ q. answer-Accounts id x q closed))
        (λ q.
          if-Accounts id 0 q
            (has_on_demand_static_source q.conf && not (is_initial q.static_source.state)) _ _
            (static_stop-Accounts id q) (nothing-Accounts id q))

  describe-Accounts : (x : ℕ) → Accounts id (one_if (x == id)) p (do_describe p x)
  unfolding do_describe
  describe-Accounts x =
      if-Accounts id _ p (is_redirect p.source) _ _
        (answer-Accounts id x p (redirected p.conf.source_redirect))
        (if-Accounts id _ p p.stream _ _ (answer-Accounts id x p given_stream) (
          if-Accounts id _ p (has_on_demand_static_source p.conf) _ _
            (wait_for_static-Accounts id p x (hold_describe x) (hold_describe-held id x))
            (if-Accounts id _ p (has_on_demand_publisher p.conf) _ _
              (wait_for_publisher-Accounts id p x (hold_describe x) (hold_describe-held id x))
              (answer-Accounts id x p (fall_back p.conf.fallback)))))

  add_reader-Accounts : (r : AddReaderReq) → Accounts id (one_if (r.id == id)) p (do_add_reader p r)
  unfolding do_add_reader
  add_reader-Accounts r = if-Accounts id _ p p.stream _ _ (add_reader_post-Accounts id p r) (
      if-Accounts id _ p (has_on_demand_static_source p.conf) _ _
        (wait_for_static-Accounts id p r.id (hold_add r) (hold_add-held id r))
        (if-Accounts id _ p (has_on_demand_publisher p.conf) _ _
          (wait_for_publisher-Accounts id p r.id (hold_add r) (hold_add-held id r))
          (answer-Accounts id r.id p (failed no_stream_available))))

  do_remove_publisher-Accounts :
      (x author : ℕ) (ok : Bool)
      → Accounts id (one_if (x == id)) p (do_remove_publisher p x author ok)
  unfolding do_remove_publisher
  do_remove_publisher-Accounts x author ok =
      then_second id _ p
        (if is_author p.source author then execute_remove_publisher p ok else done p []) (closing x)
        (if-Accounts id 0 p (is_author p.source author) _ _ (remove_publisher-Accounts id p ok)
          (nothing-Accounts id p))
        (λ q. answer-Accounts id x q closed)

  make_room-Accounts :
      (s : Source) (x : ℕ) (ok : Bool) (go_on : StreamPath → Outcome)
      → ((q : StreamPath) → Accounts id (one_if (x == id)) q (go_on q))
      → Accounts id (one_if (x == id)) p (make_room s p x ok go_on)
  unfolding answers
  make_room-Accounts no_source x ok go_on k = k p
  make_room-Accounts (publisher a) x ok go_on k =
      if-Accounts id _ p p.conf.override_publisher _ _
        (then_second id _ p
          (done p (close_publisher a ∷ []) >>= (λ (q : StreamPath). execute_remove_publisher q ok))
          go_on
          (then_second id 0 p (done p (close_publisher a ∷ [])) _
            (silent-Accounts id p p (close_publisher a ∷ []) refl refl)
            (λ q. remove_publisher-Accounts id q ok))
          k)
        (answer-Accounts id x p (failed already_publishing))
  make_room-Accounts redirect x ok go_on k =
      if-Accounts id _ p p.conf.override_publisher _ _ (panic-Accounts id _ p)
        (answer-Accounts id x p (failed already_publishing))
  make_room-Accounts static x ok go_on k =
      if-Accounts id _ p p.conf.override_publisher _ _ (panic-Accounts id _ p)
        (answer-Accounts id x p (failed already_publishing))

  add_publisher-Accounts :
      (x author : ℕ) (stream_ok sub_ok ok : Bool)
      → Accounts id (one_if (x == id)) p (do_add_publisher p x author stream_ok sub_ok ok)
  unfolding do_add_publisher
  add_publisher-Accounts x author stream_ok sub_ok ok =
      if-Accounts id _ p (takes_publishers p.conf.source) _ _
        (make_room-Accounts p.source x ok _ (λ q.
          make_available-Accounts id q x stream_ok (publisher_online x author sub_ok)
            (λ r. publisher_online-Accounts id r x author sub_ok)))
        (answer-Accounts id x p (failed not_a_publisher_path))

  remove_reader-Accounts :
      (x author : ℕ) → Accounts id (one_if (x == id)) p (do_remove_reader p x author)
  unfolding do_remove_reader release_demands Keeps answers
  remove_reader-Accounts x author = ground arith

step-Accounts : (id : ℕ) (p : StreamPath) (e : Event) → Accounts id (asked id e) p (step p e)
unfolding step do_static_set_ready
step-Accounts id p static_ready_timer =
    then_first id 0 p (do_static_ready_timer p) _ (static_ready_timer-Accounts id p)
      (close_if_idle-Accounts id)
step-Accounts id p static_close_timer =
    then_first id 0 p (do_static_close_timer p) _ (static_close_timer-Accounts id p)
      (close_if_idle-Accounts id)
step-Accounts id p publisher_ready_timer =
    then_first id 0 p (do_publisher_ready_timer p) _ (publisher_ready_timer-Accounts id p)
      (close_if_idle-Accounts id)
step-Accounts id p publisher_close_timer = publisher_close_timer-Accounts id p
step-Accounts id p (reload_conf new) = reload_conf-Accounts id p new
step-Accounts id p (static_set_ready x stream_ok sub_ok) =
    make_available-Accounts id p x stream_ok (static_online x sub_ok)
      (λ q. static_online-Accounts id q x sub_ok)
step-Accounts id p (static_set_not_ready x ok) =
    then_first id _ p (do_static_set_not_ready p x ok) _ (set_not_ready-Accounts id p x ok)
      (close_if_idle-Accounts id)
step-Accounts id p (describe x) =
    then_first id _ p (do_describe p x) _ (describe-Accounts id p x) (close_if_idle-Accounts id)
step-Accounts id p (add_publisher x author stream_ok sub_ok ok) =
    then_first id _ p (do_add_publisher p x author stream_ok sub_ok ok) _
      (add_publisher-Accounts id p x author stream_ok sub_ok ok) (close_if_idle-Accounts id)
step-Accounts id p (remove_publisher x author ok) =
    then_first id _ p (do_remove_publisher p x author ok) _
      (do_remove_publisher-Accounts id p x author ok) (close_if_idle-Accounts id)
step-Accounts id p (add_reader x author) =
    let r : AddReaderReq = record { id = x; author = author } in
    then_first id _ p (do_add_reader p r) _ (add_reader-Accounts id p r) (close_if_idle-Accounts id)
step-Accounts id p (remove_reader x author) = remove_reader-Accounts id p x author

abbrev pub asked_by : ℕ → List Event → ℕ
asked_by id [] = 0
asked_by id (e ∷ es) = asked id e + asked_by id es

pub run_inner-Accounts :
    (id : ℕ) (p : StreamPath) (es : List Event) → Accounts id (asked_by id es) p (run_inner p es)
unfolding run_inner
run_inner-Accounts id p [] = nothing-Accounts id p
run_inner-Accounts id p (e ∷ es) =
    subst (λ (n : ℕ). Keeps id n (step p e >>= (λ (q : StreamPath). run_inner q es))) (omega arith)
      (then-Keeps id (asked_by id es) (asked id e + held id p) (step p e) _ (step-Accounts id p e)
        (λ q. run_inner-Accounts id q es))
