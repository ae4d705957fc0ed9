-- ===== src/StreamPath/Running.antt =====
-- internal/core/path.go: `run` without a panic, from its start to its end.
use ppmmx.Base.{
  ℕ, ◌≡◌, refl, sym, subst, ◌⊎◌, Bool, true, false, List, [], ◌∷◌, if◌then◌else◌, arith,
}
use ppmmx.StreamPath.{
  Conf, has_static_source, has_on_demand_static_source, StreamPath, AddReaderReq, Outcome, done,
  panic, ◌>>=◌, Effect, Event, static_ready_timer, static_close_timer, publisher_ready_timer,
  publisher_close_timer, reload_conf, static_set_ready, static_set_not_ready, describe,
  add_publisher, remove_publisher, add_reader, remove_reader,
}
use ppmmx.StreamPath.OnDemand.{arrived, is_waiting}
use ppmmx.StreamPath.Handlers.{
  fail_held, on_demand_static_source_start, on_demand_publisher_start, set_available,
  set_not_available,
}
use ppmmx.StreamPath.Steps.{
  do_static_ready_timer, do_static_close_timer, do_publisher_ready_timer, do_reload_conf,
  apply_conf, make_available, static_online, do_static_set_ready, do_static_set_not_ready,
  do_describe, do_remove_publisher, do_add_publisher, do_add_reader, close_if_idle, step, run_inner,
  initialize, finish,
}
use ppmmx.StreamPath.Lifetime.{life, life-answers}
use ppmmx.StreamPath.Answers.{answers}
use ppmmx.StreamPath.Conservation.{asked_by}
use ppmmx.StreamPath.Soundness.{IsValid, IsSound, Ends, Fine}
use ppmmx.StreamPath.Safety.{
  static_ready_timer-Fine, static_close_timer-Fine, publisher_ready_timer-Fine,
  publisher_close_timer-Fine, do_remove_publisher-Fine, set_not_ready-Fine, describe-Fine,
  add_reader_post-IsSound, consume-IsSound, remove_reader-Fine, if-Fine, preceded-Fine, then-Ends,
  add_publisher-Fine,
}

-- A reload that is made without closing the path changes neither the source nor the limits
-- (pathConfCanBeUpdated in internal/core/path_manager.go).
pub record CanBeUpdated (old new : Conf) : Type 0 where
  pub valid : IsValid new
  pub source : new.source ≡ old.source
  pub source_on_demand : new.source_on_demand ≡ old.source_on_demand
  pub run_on_demand : new.run_on_demand ≡ old.run_on_demand
  pub always_available : new.always_available ≡ old.always_available
  pub max_readers : new.max_readers ≡ old.max_readers

-- What can happen to a path: an on-demand static source reports that it is ready while the path
-- waits for it, and that it is not while there is a stream. SubStream.Initialize may fail;
-- Stream.Initialize fails only for a stream that is always available (its media and formats are
-- made without an error in internal/stream), and StartOfflineSubStream does not fail.
unfoldable pub Possible : StreamPath → Event → Type 0
Possible p (static_set_ready id stream_ok sub_ok) =
    (has_static_source p.conf ≡ true)
    × ((has_on_demand_static_source p.conf ≡ false) ⊎ (is_waiting p.static_source.state ≡ true))
    × ((p.conf.always_available ≡ true) ⊎ (stream_ok ≡ true))
Possible p (static_set_not_ready id offline_ok) =
    (has_static_source p.conf ≡ true)
    × (p.stream ≡ true)
    × ((has_on_demand_static_source p.conf ≡ false) ⊎ (is_waiting p.static_source.state ≡ false))
    × (offline_ok ≡ true)
Possible p (add_publisher id author stream_ok sub_ok offline_ok) =
    ((p.conf.always_available ≡ true) ⊎ (stream_ok ≡ true)) × (offline_ok ≡ true)
Possible p (remove_publisher id author offline_ok) = offline_ok ≡ true
Possible p (reload_conf new) = CanBeUpdated p.conf new
Possible p static_ready_timer = Unit
Possible p static_close_timer = Unit
Possible p publisher_ready_timer = Unit
Possible p publisher_close_timer = Unit
Possible p (describe id) = Unit
Possible p (add_reader id author) = Unit
Possible p (remove_reader id author) = Unit

module _ (p : StreamPath) (s : IsSound p) where
  add_reader-Fine : (r : AddReaderReq) → Fine (do_add_reader p r)
  unfolding do_add_reader on_demand_static_source_start on_demand_publisher_start Ends
  add_reader-Fine r = ground (arith, add_reader_post-IsSound p r)

  reload_conf-Fine : (new : Conf) → CanBeUpdated p.conf new → Fine (do_reload_conf p new)
  unfolding do_reload_conf apply_conf Ends
  reload_conf-Fine new h = ground arith

  -- The path once its static source is online.
  static_arrived : StreamPath → StreamPath
  static_arrived q =
      if has_on_demand_static_source q.conf
      then record q { static_source = arrived q.static_source }
      else q

  always_arrived :
      p.conf.always_available ≡ true
      → IsSound (static_arrived p) × ((static_arrived p).stream ≡ true)
  unfolding static_arrived
  always_arrived h = ground arith

  newly_arrived :
      has_static_source p.conf ≡ true
      → (has_on_demand_static_source p.conf ≡ false) ⊎ (is_waiting p.static_source.state ≡ true)
      → IsSound (static_arrived (set_available p).0)
        × ((static_arrived (set_available p).0).stream ≡ true)
  unfolding static_arrived set_available
  newly_arrived h k = ground arith

  -- The stream that was made stays, whatever its sub stream.
  left_over : has_static_source p.conf ≡ true → IsSound (set_available p).0
  unfolding set_available
  left_over h = ground arith

  static_set_ready-Fine :
      (id : ℕ) (stream_ok sub_ok : Bool)
      → Possible p (static_set_ready id stream_ok sub_ok)
      → Fine (do_static_set_ready p id stream_ok sub_ok)
  unfolding do_static_set_ready make_available static_online Possible Ends static_arrived
  static_set_ready-Fine id stream_ok sub_ok (h, k, ok) =
      if-Fine p.conf.always_available _ _
        (λ always.
          if-Fine sub_ok _ _
            (λ online.
              let (s', there) = always_arrived always in
              consume-IsSound (static_arrived p) s' there)
            (λ failing. s))
        (λ made.
          if-Fine stream_ok _ _
            (λ there. preceded-Fine (set_available p).1 _ (
              if-Fine sub_ok _ _
                (λ online.
                  let (s', there) = newly_arrived h k in
                  consume-IsSound (static_arrived (set_available p).0) s' there)
                (λ failing. left_over h)))
            (λ failing. absurd (ground arith)))

  idle-Fine : Fine (close_if_idle p)
  unfolding Ends
  idle-Fine = s

then_idle : (o : Outcome) → Fine o → Fine (o >>= close_if_idle)
then_idle o h = then-Ends IsSound IsSound o close_if_idle h idle-Fine

-- A step that can happen does not panic, and leaves a sound state.
step-Fine : (p : StreamPath) (e : Event) → IsSound p → Possible p e → Fine (step p e)
unfolding step Possible
step-Fine p static_ready_timer s h =
    then_idle (do_static_ready_timer p) (static_ready_timer-Fine p s)
step-Fine p static_close_timer s h =
    then_idle (do_static_close_timer p) (static_close_timer-Fine p s)
step-Fine p publisher_ready_timer s h =
    then_idle (do_publisher_ready_timer p) (publisher_ready_timer-Fine p s)
step-Fine p publisher_close_timer s h = publisher_close_timer-Fine p s
step-Fine p (reload_conf new) s h = reload_conf-Fine p s new h
step-Fine p (static_set_ready id stream_ok sub_ok) s h =
    static_set_ready-Fine p s id stream_ok sub_ok h
step-Fine p (static_set_not_ready id ok) s (k, there, idle, e) =
    then_idle (do_static_set_not_ready p id ok) (
      subst (λ (b : Bool). Fine (do_static_set_not_ready p id b)) (sym e)
        (set_not_ready-Fine p s id there k idle))
step-Fine p (describe id) s h = then_idle (do_describe p id) (describe-Fine p s id)
step-Fine p (add_publisher id a stream_ok sub_ok ok) s (made, e) =
    then_idle (do_add_publisher p id a stream_ok sub_ok ok) (
      subst (λ (b : Bool). Fine (do_add_publisher p id a stream_ok sub_ok b)) (sym e)
        (add_publisher-Fine p id a stream_ok sub_ok s made))
step-Fine p (remove_publisher id a ok) s e = then_idle (do_remove_publisher p id a ok) (
    subst (λ (b : Bool). Fine (do_remove_publisher p id a b)) (sym e)
      (do_remove_publisher-Fine p s id a))
step-Fine p (add_reader id a) s h =
    let r : AddReaderReq = record { id = id; author = a } in
    then_idle (do_add_reader p r) (add_reader-Fine p s r)
step-Fine p (remove_reader id a) s h = remove_reader-Fine p id a s

abbrev pub HoldsAfter : Outcome → (StreamPath → Type 0) → Type 0
HoldsAfter (done q out) P = P q
HoldsAfter panic P = Unit

-- Each event is possible in the state that those before it lead to.
unfoldable pub AllPossible : StreamPath → List Event → Type 0
AllPossible p [] = Unit
AllPossible p (e ∷ es) = Possible p e × HoldsAfter (step p e) (λ (q : StreamPath). AllPossible q es)

then_possible :
    (o : Outcome) (P : StreamPath → Type 0) (f : StreamPath → Outcome)
    → Fine o
    → HoldsAfter o P
    → ((q : StreamPath) → IsSound q → P q → Fine (f q))
    → Fine (o >>= f)
unfolding Ends
then_possible (done q out) P f s h k = preceded-Fine out (f q) (k q s h)
then_possible panic P f s h k = absurd s

-- From a sound state, the handlers of any possible events do not panic, and the state after them
-- is sound: each on-demand timer is armed exactly in the state that waits for it, the hook that a
-- stop calls is set, an on-demand source is ready or about to be closed only with a stream, readers
-- are there only with a stream, and are no more than the limit. That SubStream.Initialize fails is
-- among the events.
pub run_inner-IsSound :
    (p : StreamPath) (es : List Event)
    → IsSound p
    → AllPossible p es
    → Ends IsSound (run_inner p es)
unfolding run_inner AllPossible Ends
run_inner-IsSound p [] s h = s
run_inner-IsSound p (e ∷ es) s (now, later) =
    then_possible (step p e) (λ (q : StreamPath). AllPossible q es) _ (step-Fine p e s now) later
      (λ q s' k. run_inner-IsSound q es s' k)

initialize-IsSound :
    (c : Conf) (t m stream_ok : Bool)
    → IsValid c
    → (c.always_available ≡ false) ⊎ (stream_ok ≡ true)
    → Fine (initialize c t m stream_ok)
unfolding initialize set_available Ends
initialize-IsSound c t m stream_ok v h = ground arith

finish-Ends : (p : StreamPath) → IsSound p → Ends (λ q. Unit) (finish p)
unfolding finish fail_held set_not_available Ends
finish-Ends p s = ground arith

Ends-done :
    (P : StreamPath → Type 0) (o : Outcome)
    → Ends P o
    → (q : StreamPath) × (out : List Effect) × (o ≡ done q out)
unfolding Ends
Ends-done P (done q out) h = (q, out, refl)
Ends-done P panic h = absurd h

-- With a valid configuration and a stream that can be made where it must always be there, `run`
-- comes to its end without a panic, whatever possible events it serves, and has then answered
-- every request of theirs as often as it came: to describe, to add or remove a publisher or a
-- reader, or from a static source that it is ready or not.
pub life-done :
    (c : Conf) (tencent_enable mmx_enable stream_ok : Bool) (es : List Event) (id : ℕ)
    → IsValid c
    → (c.always_available ≡ false) ⊎ (stream_ok ≡ true)
    → HoldsAfter
        (initialize c tencent_enable mmx_enable stream_ok)
        (λ (p : StreamPath). AllPossible p es)
    → (q : StreamPath) × (out : List Effect) × (life c tencent_enable mmx_enable stream_ok es
        ≡ done q out)
      × (answers id out ≡ asked_by id es)
unfolding life
life-done c t m stream_ok es id v h k =
    let (q, out, e) = Ends-done (λ q. Unit {0}) (life c t m stream_ok es) ended in
    (q, out, e, life-answers id c t m stream_ok es q out e)
  where
    ran : Fine (initialize c t m stream_ok >>= (λ (p : StreamPath). run_inner p es))
    ran =
        then_possible (initialize c t m stream_ok) (λ (p : StreamPath). AllPossible p es) _
          (initialize-IsSound c t m stream_ok v h) k (λ p s a. run_inner-IsSound p es s a)

    ended : Ends (λ q. Unit {0}) (life c t m stream_ok es)
    ended = then-Ends IsSound (λ q. Unit {0}) _ finish ran finish-Ends
