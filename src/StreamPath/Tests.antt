-- ===== src/StreamPath/Tests.antt =====
-- internal/core/path.go on concrete events: runs, and the theorems applied.
use ppmmx.Base.{◌≡◌, refl, true, false, none, inl, inr, List, [], ◌∷◌, arith}
use ppmmx.StreamPath.{
  Conf, from_publisher, from_url, static, start_source, ◌>>=◌, static_set_ready, static_ready_timer,
  StreamPath, Event, describe, add_publisher, add_reader, remove_publisher, publisher_ready_timer,
  publisher_close_timer, done, Effect, answer, failed, timed_out, no_stream_available, closed,
  given_stream, given_sub_stream, remove_path, run_on_demand, run_on_ready, run_un_demand,
  set_path_ready, set_path_not_ready, run_on_not_ready,
}
use ppmmx.StreamPath.OnDemand.{closing, waiting_ready}
use ppmmx.StreamPath.Handlers.{
  on_demand_static_source_start, fail_held, on_demand_publisher_start, on_demand_publisher_stop,
  set_available, set_not_available, go_offline, execute_remove_publisher, add_held_readers,
  consume_on_hold_requests,
}
use ppmmx.StreamPath.Steps.{
  created, initialize, do_describe, do_add_publisher, do_add_reader, do_remove_publisher,
  do_publisher_ready_timer, make_available, publisher_online, step, run_inner, finish,
}
use ppmmx.StreamPath.Answers.{answers, held}
use ppmmx.StreamPath.Conservation.{asked_by}
use ppmmx.StreamPath.Lifetime.{life, life-answers}
use ppmmx.StreamPath.Soundness.{IsValid, IsSound, Ends}
use ppmmx.StreamPath.Running.{AllPossible, HoldsAfter, Possible, run_inner-IsSound, life-done}
use ppmmx.StreamPath.Dead.Reached.{GivesDeadStream, static_set_ready-GivesDeadStream}
use ppmmx.StreamPath.Stranded.{StillStranded, close_timer-StillStranded}

abbrev plain : Conf
plain = record {
  source = from_publisher;
  source_redirect = 0;
  source_on_demand = false;
  run_on_demand = false;
  always_available = false;
  override_publisher = true;
  is_regexp = false;
  max_readers = 2;
  fallback = none;
  recorded = false;
  recorder_settings = 0;
  forward_tencent = false;
  tencent_stream_key = 0;
  forward_mmx = false;
  mmx_targets = [];
}

abbrev on_demand : Conf
on_demand = record plain { run_on_demand = true }

abbrev waiting : StreamPath
waiting = created on_demand false false

-- A reader waits for the publisher, which does not come.
abbrev no_one_comes : List Event
no_one_comes = add_reader 1 10 ∷ publisher_ready_timer ∷ []

reader_times_out :
    run_inner waiting no_one_comes
    ≡ done waiting (run_on_demand ∷ answer 1 (failed timed_out) ∷ run_un_demand ∷ [])
unfolding run_inner step do_add_reader on_demand_publisher_start do_publisher_ready_timer fail_held
    on_demand_publisher_stop
reader_times_out = refl

-- A publisher came and left before its close timer fired, and a request followed.
abbrev left_early : List Event
left_early =
    describe 1 ∷ add_publisher 2 20 true true true ∷ remove_publisher 3 20 true ∷ describe 5 ∷ []

abbrev left : StreamPath
left = record waiting {
  on_un_demand_hook = true;
  on_not_ready_hook = true;
  describes_on_hold = 5 ∷ [];
  publisher = record { state = closing; ready_timer = false; close_timer = true };
}

left_reached :
    run_inner waiting left_early
    ≡ done left (
        run_on_demand
        ∷ run_on_ready
        ∷ set_path_ready
        ∷ answer 1 given_stream
        ∷ answer 2 given_sub_stream
        ∷ set_path_not_ready
        ∷ run_on_not_ready
        ∷ answer 3 closed
        ∷ [])
unfolding run_inner step do_describe on_demand_publisher_start do_add_publisher make_available
    set_available publisher_online consume_on_hold_requests add_held_readers do_remove_publisher
    execute_remove_publisher go_offline set_not_available
left_reached = refl

plain-IsValid : IsValid plain
plain-IsValid = record { always = inl refl; publishers = inl refl }

on_demand-IsValid : IsValid on_demand
on_demand-IsValid = record { always = inl refl; publishers = inr refl }

waiting-IsSound : IsSound waiting
waiting-IsSound = record {
  valid = on_demand-IsValid;
  fits = refl;
  hook = inl refl;
  static_timers = record { ready_timer = refl; close_timer = refl };
  publisher_timers = record { ready_timer = refl; close_timer = refl };
  un_demand_hook = refl;
  demanded = inr (refl, refl);
  published = inl refl;
  always = inl refl;
  limit = inr (omega arith);
  reached = inl refl;
}

left-IsSound : IsSound left
left-IsSound = record {
  valid = on_demand-IsValid;
  fits = refl;
  hook = inl refl;
  static_timers = record { ready_timer = refl; close_timer = refl };
  publisher_timers = record { ready_timer = refl; close_timer = refl };
  un_demand_hook = refl;
  demanded = inr (refl, refl);
  published = inl refl;
  always = inl refl;
  limit = inr (omega arith);
  reached = inl refl;
}

no_one_comes-AllPossible : AllPossible waiting no_one_comes
unfolding AllPossible Possible step do_add_reader on_demand_publisher_start do_publisher_ready_timer
    fail_held on_demand_publisher_stop
no_one_comes-AllPossible = (tt, (tt, tt))

run_inner-IsSound_example : Ends IsSound (run_inner waiting no_one_comes)
run_inner-IsSound_example =
    run_inner-IsSound waiting no_one_comes waiting-IsSound no_one_comes-AllPossible

plain_run :
    life plain false false true (describe 7 ∷ [])
    ≡ done (created plain false false) (answer 7 (failed no_stream_available) ∷ remove_path ∷ [])
unfolding life initialize run_inner step do_describe finish fail_held
plain_run = refl

life-answers_example :
    answers 7 (answer 7 (failed no_stream_available) ∷ remove_path ∷ [])
    ≡ asked_by 7 (describe 7 ∷ [])
life-answers_example =
    life-answers 7 plain false false true (describe 7 ∷ []) (created plain false false)
      (answer 7 (failed no_stream_available) ∷ remove_path ∷ []) plain_run

no_one_comes-possible :
    HoldsAfter
      (initialize on_demand false false true)
      (λ (p : StreamPath). AllPossible p no_one_comes)
unfolding initialize AllPossible Possible step do_add_reader on_demand_publisher_start
    do_publisher_ready_timer fail_held on_demand_publisher_stop
no_one_comes-possible = (tt, (tt, tt))

life-done_example :
    (q : StreamPath) × (out : List Effect) × (life on_demand false false true no_one_comes
      ≡ done q out)
    × (answers 1 out ≡ asked_by 1 no_one_comes)
life-done_example =
    life-done on_demand false false true no_one_comes 1 on_demand-IsValid (inl refl)
      no_one_comes-possible

close_timer-StillStranded_example :
    StillStranded 5
      (asked_by 5 (publisher_ready_timer ∷ []))
      (held 5 left)
      (run_inner left (publisher_close_timer ∷ publisher_ready_timer ∷ []))
close_timer-StillStranded_example =
    close_timer-StillStranded 5 left (publisher_ready_timer ∷ []) left-IsSound refl refl refl
      (refl, tt)

abbrev fed : Conf
fed = record plain { source = from_url; source_on_demand = true }

-- The source was started for a request, and has not reported yet.
abbrev awaited : StreamPath
awaited = record (created fed false false) {
  source = static;
  describes_on_hold = 1 ∷ [];
  static_source = record { state = waiting_ready; ready_timer = true; close_timer = false };
}

awaited_reached :
    initialize fed false false true >>= (λ (p : StreamPath). run_inner p (describe 1 ∷ []))
    ≡ done awaited (start_source ∷ [])
unfolding initialize run_inner step do_describe on_demand_static_source_start
awaited_reached = refl

awaited-IsSound : IsSound awaited
awaited-IsSound = record {
  valid = record { always = inl refl; publishers = inl refl };
  fits = refl;
  hook = inl refl;
  static_timers = record { ready_timer = refl; close_timer = refl };
  publisher_timers = record { ready_timer = refl; close_timer = refl };
  un_demand_hook = refl;
  demanded = inl (refl, inr refl);
  published = inl refl;
  always = inl refl;
  limit = inr (omega arith);
  reached = inl refl;
}

static_set_ready-GivesDeadStream_example : GivesDeadStream 3 1 (
    run_inner awaited
      (static_set_ready 2 true false ∷ static_ready_timer ∷ describe 3 ∷ add_reader 4 40 ∷ []))
static_set_ready-GivesDeadStream_example =
    static_set_ready-GivesDeadStream 3 2 awaited awaited-IsSound refl refl refl refl
      (describe 3 ∷ add_reader 4 40 ∷ []) (refl, (refl, tt))
