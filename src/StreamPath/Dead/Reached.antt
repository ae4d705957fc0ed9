-- ===== src/StreamPath/Dead/Reached.antt =====
-- internal/core/path.go: how a path comes to a stream without its source: a static source that is
-- started on demand, whose sub-stream cannot be made when it reports that it is ready.
use ppmmx.Base.{
  ℕ, ◌+◌, ◌==◌, subst, ◌≡◌, refl, sym, ap, ◌∙◌, true, false, List, [], ◌∷◌, ◌++◌, All, arith,
}
use ppmmx.StreamPath.{
  has_on_demand_static_source, static, StreamPath, given_stream, failed, not_initialized, timed_out,
  Answer, AddReaderReq, ConfSource, from_url, from_redirect, from_publisher, Source, no_source,
  redirect, publisher, Effect, answer, Outcome, done, panic, ◌>>=◌, preceded_by, Event,
  static_ready_timer, static_set_ready, stop_source, run_on_ready, set_path_ready,
}
use ppmmx.StreamPath.OnDemand.{initial, waiting_ready, is_waiting, is_closing}
use ppmmx.StreamPath.Handlers.{
  answer_describes, answer_adds, set_available, fail_held, on_demand_static_source_stop,
}
use ppmmx.StreamPath.Steps.{
  do_static_ready_timer, do_describe, do_static_set_ready, make_available, static_online, step,
  run_inner,
}
use ppmmx.StreamPath.Answers.{
  answers, held, one_if, answers-append, answers-describes, answers-adds,
}
use ppmmx.StreamPath.Conservation.{asked_by}
use ppmmx.StreamPath.Soundness.{IsSound, source_fits}
use ppmmx.StreamPath.Dead.{
  is_without_source, IsDead, starts, starts-append, StillDead, preceded-StillDead,
  run_inner-StillDead,
}

-- An outcome in which the request was answered `m` times, the source was not started, and there is a
-- stream, without a source, that the next request to describe it is given.
unfoldable pub GivesDeadStream : ℕ → ℕ → Outcome → Type 0
GivesDeadStream id m (done q out) =
    IsDead q
    × (answers id out ≡ m)
    × (starts out ≡ 0)
    × (do_describe q id ≡ done q (answer id given_stream ∷ []))
GivesDeadStream id m panic = ⊥

StillDead-gives : (id m : ℕ) (o : Outcome) → StillDead id m o → GivesDeadStream id m o
unfolding StillDead GivesDeadStream do_describe
StillDead-gives id m (done q out) (s, said, none_started) = (s, said, none_started, ground arith)
StillDead-gives id m panic h = absurd h

starts-describes : (ids : List ℕ) (a : Answer) → starts (answer_describes ids a) ≡ 0
unfolding starts
starts-describes [] a = refl
starts-describes (x ∷ xs) a = omega (arith, starts-describes xs a)

starts-adds : (reqs : List AddReaderReq) (a : Answer) → starts (answer_adds reqs a) ≡ 0
unfolding starts
starts-adds [] a = refl
starts-adds (r ∷ rs) a = omega (arith, starts-adds rs a)

module _ (id x : ℕ) (p : StreamPath) (sound : IsSound p)
    (on_demand : has_on_demand_static_source p.conf ≡ true)
    (not_always : p.conf.always_available ≡ false) (waiting : p.static_source.state ≡ waiting_ready)
    (no_publisher : p.publisher.state ≡ initial) where
  is_static_source : p.source ≡ static
  is_static_source = by_source p.conf.source p.source sound.fits (ground arith)
    where
      by_source : (c : ConfSource) (o : Source) → source_fits c o ≡ true → c ≡ from_url → o ≡ static
      by_source from_url static h e = refl
      by_source from_url no_source h e = cc
      by_source from_url redirect h e = cc
      by_source from_url (publisher a) h e = cc
      by_source from_redirect o h e = cc
      by_source from_publisher o h e = cc

  -- The report fails, with the stream made.
  reported : StreamPath
  reported = (set_available p).0

  said_first : List Effect
  said_first = run_on_ready ∷ set_path_ready ∷ answer x (failed not_initialized) ∷ []

  report_fails : step p (static_set_ready x true false) ≡ done reported said_first
  unfolding step reported said_first do_static_set_ready make_available static_online set_available
  report_fails = ground arith

  stopped : StreamPath
  stopped = record reported {
    static_source = record {
      state = initial;
      ready_timer = false;
      close_timer = p.static_source.close_timer;
    };
    describes_on_hold = [];
    reader_adds_on_hold = [];
  }

  said_then : List Effect
  said_then =
      ((answer_describes p.describes_on_hold (failed timed_out)
          ++ answer_adds p.reader_adds_on_hold (failed timed_out))
        ++ stop_source ∷ [])
      ++ []

  times_out : step reported static_ready_timer ≡ done stopped said_then
  unfolding step reported stopped said_then do_static_ready_timer fail_held
      on_demand_static_source_stop set_available
  times_out = ground (arith, is_static_source, sound.static_timers.ready_timer)

  stopped-IsDead : IsDead stopped
  unfolding stopped reported set_available
  stopped-IsDead = record {
    source = is_static_source;
    stream = refl;
    on_demand = on_demand;
    state = refl;
    ready_timer = refl;
    close_timer = sound.static_timers.close_timer ∙ ap is_closing waiting;
    publisher_ready_timer = sound.publisher_timers.ready_timer ∙ ap is_waiting no_publisher;
    publisher_close_timer = sound.publisher_timers.close_timer ∙ ap is_closing no_publisher;
    describes = refl;
    reader_adds = refl;
  }

  starts-said_then : starts said_then ≡ 0
  unfolding said_then starts
  starts-said_then =
      let describes = answer_describes p.describes_on_hold (failed timed_out) in
      let adds = answer_adds p.reader_adds_on_hold (failed timed_out) in
      omega (
        arith,
        starts-append ((describes ++ adds) ++ stop_source ∷ []) [],
        starts-append (describes ++ adds) (stop_source ∷ []),
        starts-append describes adds,
        starts-describes p.describes_on_hold (failed timed_out),
        starts-adds p.reader_adds_on_hold (failed timed_out),
      )

  answers-said_then : answers id said_then ≡ held id p
  unfolding said_then answers
  answers-said_then =
      let describes = answer_describes p.describes_on_hold (failed timed_out) in
      let adds = answer_adds p.reader_adds_on_hold (failed timed_out) in
      omega (
        arith,
        answers-append id ((describes ++ adds) ++ stop_source ∷ []) [],
        answers-append id (describes ++ adds) (stop_source ∷ []),
        answers-append id describes adds,
        answers-describes id p.describes_on_hold (failed timed_out),
        answers-adds id p.reader_adds_on_hold (failed timed_out),
      )

  answers-said_first : answers id said_first ≡ one_if (x == id)
  unfolding said_first answers
  answers-said_first = omega arith

  starts-said_first : starts said_first ≡ 0
  unfolding said_first starts
  starts-said_first = refl

  both_run :
      (es : List Event)
      → run_inner p (static_set_ready x true false ∷ static_ready_timer ∷ es)
        ≡ preceded_by said_first (preceded_by said_then (run_inner stopped es))
  unfolding run_inner
  both_run es =
      ap (λ (o : Outcome). o >>= λ (q : StreamPath). run_inner q (static_ready_timer ∷ es))
        report_fails
      ∙ ap (λ (o : Outcome). preceded_by said_first (o >>= λ (q : StreamPath). run_inner q es))
          times_out

  -- In a sound state of a path that is not always available, which waits for its on-demand static
  -- source and for no publisher: if the source reports that it is ready, with the stream made and
  -- SubStream.Initialize failing, and the ready timer fires before the source reports again, the
  -- stream stays while the source is stopped. Whatever happens next but a message of that source or
  -- new settings, the source is not started again, every request (on hold, the source's, or of these
  -- events) is answered as often as it came, and a request to describe the path is given the stream.
  pub static_set_ready-GivesDeadStream :
      (es : List Event)
      → All (λ e. is_without_source e ≡ true) es
      → GivesDeadStream id
          (one_if (x == id) + (held id p + asked_by id es))
          (run_inner p (static_set_ready x true false ∷ static_ready_timer ∷ es))
  static_set_ready-GivesDeadStream es without = StillDead-gives id _ _ (
      subst (StillDead id (one_if (x == id) + (held id p + asked_by id es))) (sym (both_run es)) (
        preceded-StillDead id _ _ said_first _ answers-said_first starts-said_first (
          preceded-StillDead id _ _ said_then _ answers-said_then starts-said_then
            (run_inner-StillDead id stopped es stopped-IsDead without))))
