-- ===== src/StreamPath/Steps.antt =====
-- internal/core/path.go: `runInner`, one event at a time, the start and the end of `run`.
use ppmmx.Base.{
  ℕ, Bool, true, false, not, ◌&&◌, ◌||◌, Option, none, some, List, [], ◌∷◌, ◌++◌, ◌==◌,
  if◌then◌else◌,
}
use ppmmx.StreamPath.{
  Conf, ConfSource, from_publisher, from_redirect, from_url, has_static_source,
  has_on_demand_static_source, has_on_demand_publisher, Source, no_source, redirect, static,
  publisher, AddReaderReq, StreamPath, timed_out, terminated, no_stream_available,
  not_a_publisher_path, already_publishing, not_initialized, Answer, given_stream, given_sub_stream,
  closed, redirected, failed, Effect, answer, start_source, close_source, close_publisher,
  reload_source, run_un_demand, close_path_if_idle, remove_path, Outcome, done, panic, ◌>>=◌, Event,
  static_ready_timer, static_close_timer, publisher_ready_timer, publisher_close_timer, reload_conf,
  static_set_ready, static_set_not_ready, describe, add_publisher, remove_publisher, add_reader,
  remove_reader,
}
use ppmmx.StreamPath.OnDemand.{idle, is_initial, arrived, unneeded}
use ppmmx.StreamPath.Handlers.{
  is_static, is_redirect, is_no_source, is_empty, fail_held, on_demand_static_source_start,
  on_demand_static_source_stop, on_demand_publisher_start, on_demand_publisher_stop, set_available,
  set_not_available, go_offline, execute_remove_publisher, remove, add_reader_post,
  consume_on_hold_requests,
}

abbrev pub run : StreamPath × List Effect → Outcome
run (p, out) = done p out

-- A timer that is not armed does not fire.
unfoldable pub do_static_ready_timer : StreamPath → Outcome
do_static_ready_timer p =
    if p.static_source.ready_timer
    then run (
        fail_held (record p { static_source = record p.static_source { ready_timer = false } })
          timed_out)
      >>= on_demand_static_source_stop
    else done p []

unfoldable pub do_static_close_timer : StreamPath → Outcome
do_static_close_timer p =
    if p.static_source.close_timer
    then if p.conf.always_available
      then panic
      else set_not_available
          (record p { static_source = record p.static_source { close_timer = false } })
        >>= on_demand_static_source_stop
    else done p []

unfoldable pub do_publisher_ready_timer : StreamPath → Outcome
do_publisher_ready_timer p =
    if p.publisher.ready_timer
    then run
        (fail_held (record p { publisher = record p.publisher { ready_timer = false } }) timed_out)
      >>= on_demand_publisher_stop
    else done p []

unfoldable pub do_publisher_close_timer : StreamPath → Outcome
do_publisher_close_timer p =
    if p.publisher.close_timer
    then on_demand_publisher_stop
        (record p { publisher = record p.publisher { close_timer = false } })
    else done p []

abbrev pub eqb_Bool : Bool → Bool → Bool
eqb_Bool true b = b
eqb_Bool false b = not b

-- slices.Equal
abbrev pub eqb_List : List ℕ → List ℕ → Bool
eqb_List [] [] = true
eqb_List [] (y ∷ ys) = false
eqb_List (x ∷ xs) [] = false
eqb_List (x ∷ xs) (y ∷ ys) = x == y && eqb_List xs ys

-- What goes on after a change of the settings: stopped if they changed, started if it is due.
abbrev pub reloaded : Bool → Bool → Bool → Bool
reloaded going changed due =
    let kept = going && not changed in if due && not kept then true else kept

abbrev pub reloaded_mmx : List ℕ → Bool → Bool → List ℕ → List ℕ
reloaded_mmx going changed due targets =
    let kept : List ℕ = if not (is_empty going) && changed then [] else going in
    if due && is_empty kept then targets else kept

unfoldable pub apply_conf : StreamPath → Conf → StreamPath
apply_conf p new =
    let old = p.conf in
    record p {
      conf = new;
      recorder =
          reloaded p.recorder
            (not (eqb_Bool new.recorded old.recorded)
              || not (new.recorder_settings == old.recorder_settings))
            (new.recorded && p.stream);
      tencent =
          reloaded p.tencent
            (not (eqb_Bool new.forward_tencent old.forward_tencent)
              || not (new.tencent_stream_key == old.tencent_stream_key))
            (new.forward_tencent && p.tencent_enable && p.stream);
      mmx =
          reloaded_mmx p.mmx
            (not (eqb_Bool new.forward_mmx old.forward_mmx)
              || not (eqb_List new.mmx_targets old.mmx_targets))
            (new.forward_mmx && p.mmx_enable && p.stream) new.mmx_targets;
    }

unfoldable pub do_reload_conf : StreamPath → Conf → Outcome
do_reload_conf p new =
    if has_static_source new
    then if is_static p.source then done (apply_conf p new) (reload_source ∷ []) else panic
    else done (apply_conf p new) []

-- Both doSourceStaticSetReady and doAddPublisher: the stream, unless it is always there.
unfoldable pub make_available : StreamPath → ℕ → Bool → (StreamPath → Outcome) → Outcome
make_available p id stream_ok go_on =
    if p.conf.always_available
    then go_on p
    else if stream_ok
    then run (set_available p) >>= go_on
    else done (record p { stream = true }) (answer id (failed not_initialized) ∷ [])

abbrev pub consume_and_answer : StreamPath → ℕ → Outcome
consume_and_answer p id = run (consume_on_hold_requests p) >>= λ (q : StreamPath).
    done q (answer id given_sub_stream ∷ [])

unfoldable pub static_online : ℕ → Bool → StreamPath → Outcome
static_online id sub_ok p =
    if sub_ok
    then consume_and_answer
        (if has_on_demand_static_source p.conf
          then record p { static_source = arrived p.static_source }
          else p)
        id
    else done p (answer id (failed not_initialized) ∷ [])

unfoldable pub do_static_set_ready : StreamPath → ℕ → Bool → Bool → Outcome
do_static_set_ready p id stream_ok sub_ok = make_available p id stream_ok (static_online id sub_ok)

-- The answer comes before the stop.
unfoldable pub do_static_set_not_ready : StreamPath → ℕ → Bool → Outcome
do_static_set_not_ready p id offline_ok =
    go_offline p offline_ok
    >>= (λ (q : StreamPath). done q (answer id closed ∷ []))
    >>= λ (q : StreamPath).
        if has_on_demand_static_source q.conf && not (is_initial q.static_source.state)
        then on_demand_static_source_stop q
        else done q []

-- The source is started unless that was done before, and the request waits.
abbrev pub wait_for_static : StreamPath → (StreamPath → StreamPath) → Outcome
wait_for_static p hold =
    if is_initial p.static_source.state
    then on_demand_static_source_start p >>= (λ (q : StreamPath). done (hold q) [])
    else done (hold p) []

abbrev pub wait_for_publisher : StreamPath → (StreamPath → StreamPath) → Outcome
wait_for_publisher p hold =
    if is_initial p.publisher.state
    then on_demand_publisher_start p >>= (λ (q : StreamPath). done (hold q) [])
    else done (hold p) []

abbrev pub hold_describe : ℕ → StreamPath → StreamPath
hold_describe id p = record p { describes_on_hold = p.describes_on_hold ++ id ∷ [] }

abbrev pub hold_add : AddReaderReq → StreamPath → StreamPath
hold_add req p = record p { reader_adds_on_hold = p.reader_adds_on_hold ++ req ∷ [] }

abbrev pub fall_back : Option ℕ → Answer
fall_back none = failed no_stream_available
fall_back (some target) = redirected target

unfoldable pub do_describe : StreamPath → ℕ → Outcome
do_describe p id =
    if is_redirect p.source
    then done p (answer id (redirected p.conf.source_redirect) ∷ [])
    else if p.stream
    then done p (answer id given_stream ∷ [])
    else if has_on_demand_static_source p.conf
    then wait_for_static p (hold_describe id)
    else if has_on_demand_publisher p.conf
    then wait_for_publisher p (hold_describe id)
    else done p (answer id (fall_back p.conf.fallback) ∷ [])

abbrev pub is_author : Source → ℕ → Bool
is_author (publisher a) author = a == author
is_author no_source author = false
is_author redirect author = false
is_author static author = false

unfoldable pub do_remove_publisher : StreamPath → ℕ → ℕ → Bool → Outcome
do_remove_publisher p id author offline_ok =
    (if is_author p.source author then execute_remove_publisher p offline_ok else done p [])
    >>= λ (q : StreamPath). done q (answer id closed ∷ [])

unfoldable pub publisher_online : ℕ → ℕ → Bool → StreamPath → Outcome
publisher_online id author sub_ok p =
    if sub_ok
    then consume_and_answer
        (if has_on_demand_publisher p.conf && not (is_initial p.publisher.state)
          then record p { source = publisher author; publisher = arrived p.publisher }
          else record p { source = publisher author })
        id
    else done p (answer id (failed not_initialized) ∷ [])

abbrev pub takes_publishers : ConfSource → Bool
takes_publishers from_publisher = true
takes_publishers from_redirect = false
takes_publishers from_url = false

-- An existing publisher is closed first, if it may be overridden.
abbrev pub make_room : Source → StreamPath → ℕ → Bool → (StreamPath → Outcome) → Outcome
make_room no_source p id offline_ok go_on = go_on p
make_room (publisher a) p id offline_ok go_on =
    if p.conf.override_publisher
    then done p (close_publisher a ∷ [])
      >>= (λ (q : StreamPath). execute_remove_publisher q offline_ok)
      >>= go_on
    else done p (answer id (failed already_publishing) ∷ [])
make_room redirect p id offline_ok go_on =
    if p.conf.override_publisher then panic else done p (answer id (failed already_publishing) ∷ [])
make_room static p id offline_ok go_on =
    if p.conf.override_publisher then panic else done p (answer id (failed already_publishing) ∷ [])

unfoldable pub do_add_publisher : StreamPath → ℕ → ℕ → Bool → Bool → Bool → Outcome
do_add_publisher p id author stream_ok sub_ok offline_ok =
    if takes_publishers p.conf.source
    then make_room p.source p id offline_ok
        (λ (q : StreamPath). make_available q id stream_ok (publisher_online id author sub_ok))
    else done p (answer id (failed not_a_publisher_path) ∷ [])

unfoldable pub do_add_reader : StreamPath → AddReaderReq → Outcome
do_add_reader p req =
    if p.stream
    then run (add_reader_post p req)
    else if has_on_demand_static_source p.conf
    then wait_for_static p (hold_add req)
    else if has_on_demand_publisher p.conf
    then wait_for_publisher p (hold_add req)
    else done p (answer req.id (failed no_stream_available) ∷ [])

-- The demands, once the last reader has left.
unfoldable pub release_demands : StreamPath → StreamPath
release_demands p =
    if is_empty p.readers
    then if has_on_demand_static_source p.conf
      then record p { static_source = unneeded p.static_source }
      else if has_on_demand_publisher p.conf
      then record p { publisher = unneeded p.publisher }
      else p
    else p

unfoldable pub do_remove_reader : StreamPath → ℕ → ℕ → Outcome
do_remove_reader p id author =
    done (release_demands (record p { readers = remove author p.readers })) (answer id closed ∷ [])

abbrev pub should_close : StreamPath → Bool
should_close p =
    p.conf.is_regexp
    && is_no_source p.source
    && is_empty p.readers
    && is_empty p.describes_on_hold
    && is_empty p.reader_adds_on_hold

abbrev pub close_if_idle : StreamPath → Outcome
close_if_idle p = done p (if should_close p then close_path_if_idle ∷ [] else [])

-- One round of `runInner`.
unfoldable pub step : StreamPath → Event → Outcome
step p static_ready_timer = do_static_ready_timer p >>= close_if_idle
step p static_close_timer = do_static_close_timer p >>= close_if_idle
step p publisher_ready_timer = do_publisher_ready_timer p >>= close_if_idle
step p publisher_close_timer = do_publisher_close_timer p
step p (reload_conf new) = do_reload_conf p new
step p (static_set_ready id stream_ok sub_ok) = do_static_set_ready p id stream_ok sub_ok
step p (static_set_not_ready id offline_ok) =
    do_static_set_not_ready p id offline_ok >>= close_if_idle
step p (describe id) = do_describe p id >>= close_if_idle
step p (add_publisher id author stream_ok sub_ok offline_ok) =
    do_add_publisher p id author stream_ok sub_ok offline_ok >>= close_if_idle
step p (remove_publisher id author offline_ok) =
    do_remove_publisher p id author offline_ok >>= close_if_idle
step p (add_reader id author) =
    do_add_reader p (record { id = id; author = author }) >>= close_if_idle
step p (remove_reader id author) = do_remove_reader p id author

-- The rounds of `runInner` over some events.
unfoldable pub run_inner : StreamPath → List Event → Outcome
run_inner p [] = done p []
run_inner p (e ∷ es) = step p e >>= λ (q : StreamPath). run_inner q es

abbrev pub source_of : Conf → Source
source_of c = elim c.source [
  | from_url ↦ static
  | from_redirect ↦ redirect
  | from_publisher ↦ no_source
]

abbrev pub created : Conf → Bool → Bool → StreamPath
created c tencent_enable mmx_enable = record {
  conf = c;
  tencent_enable = tencent_enable;
  mmx_enable = mmx_enable;
  source = no_source;
  stream = false;
  recorder = false;
  tencent = false;
  mmx = [];
  on_un_demand_hook = false;
  on_not_ready_hook = false;
  readers = [];
  describes_on_hold = [];
  reader_adds_on_hold = [];
  static_source = idle;
  publisher = idle;
}

-- The start of `run`; `stream_ok` tells whether a stream that is always available can be made.
unfoldable pub initialize : Conf → Bool → Bool → Bool → Outcome
initialize c tencent_enable mmx_enable stream_ok =
    let p = created c tencent_enable mmx_enable in
    (if c.always_available then if stream_ok then run (set_available p) else panic else done p [])
    >>= λ (q : StreamPath).
        done (record q { source = source_of c })
          (if has_static_source c && not c.source_on_demand then start_source ∷ [] else [])

abbrev pub close_of : Source → StreamPath → List Effect
close_of static p =
    if not p.conf.source_on_demand || not (is_initial p.static_source.state)
    then close_source ∷ []
    else []
close_of (publisher a) p = close_publisher a ∷ []
close_of no_source p = []
close_of redirect p = []

-- The end of `run`: every request on hold is answered, and all is closed.
unfoldable pub finish : StreamPath → Outcome
finish p =
    done p (remove_path ∷ [])
    >>= (λ (q : StreamPath). run (fail_held q terminated))
    >>= (λ (q : StreamPath). if q.stream then set_not_available q else done q [])
    >>= λ (q : StreamPath).
        done q (close_of q.source q ++ (if q.on_un_demand_hook then run_un_demand ∷ [] else []))
