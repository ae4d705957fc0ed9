-- ===== src/StreamPath/Accounting.antt =====
-- internal/core/path.go: each handler answers or holds the request that comes with it, and answers
-- at most what it held.
use ppmmx.Base.{ℕ, ◌+◌, ◌≡◌, refl, ap, subst, ◌∙◌, Bool, List, [], ◌∷◌, ◌++◌, map, ◌==◌, arith}
use ppmmx.StreamPath.{
  Source, no_source, redirect, static, publisher, StreamPath, AddReaderReq, Failure, given_stream,
  failed, Effect, answer, close_reader, set_path_not_ready, run_on_not_ready, Outcome, done, ◌>>=◌,
}
use ppmmx.StreamPath.Handlers.{
  answer_describes, answer_adds, fail_held, on_demand_static_source_start,
  on_demand_static_source_stop, on_demand_publisher_start, on_demand_publisher_stop, set_available,
  set_not_available, go_offline, execute_remove_publisher, add_reader_post, add_held_readers,
  keep_demands, key_frame, consume_on_hold_requests,
}
use ppmmx.StreamPath.Steps.{close_if_idle, run}
use ppmmx.StreamPath.Answers.{
  one_if, count, add_ids, answers, held, Keeps, answers-append, answers-describes, answers-adds,
  answers-closed, then-Keeps,
}

-- A handler that keeps what the path held, and `j` requests that come with it.
abbrev pub Accounts : ℕ → ℕ → StreamPath → Outcome → Type 0
Accounts id j p o = Keeps id (j + held id p) o

module _ (id : ℕ) (p : StreamPath) where
  pub static_start-Accounts : Accounts id 0 p (on_demand_static_source_start p)
  unfolding on_demand_static_source_start Keeps answers
  static_start-Accounts = ground arith

  pub static_stop-Accounts : Accounts id 0 p (on_demand_static_source_stop p)
  unfolding on_demand_static_source_stop Keeps answers
  static_stop-Accounts = ground arith

  pub publisher_start-Accounts : Accounts id 0 p (on_demand_publisher_start p)
  unfolding on_demand_publisher_start Keeps answers
  publisher_start-Accounts = ground arith

  pub publisher_stop-Accounts : Accounts id 0 p (on_demand_publisher_stop p)
  unfolding on_demand_publisher_stop Keeps answers
  publisher_stop-Accounts = ground arith

  pub fail_held-Accounts : (why : Failure) → Accounts id 0 p (run (fail_held p why))
  unfolding fail_held Keeps
  fail_held-Accounts why = omega (
    arith,
    answers-append id (answer_describes p.describes_on_hold (failed why))
        (answer_adds p.reader_adds_on_hold (failed why)),
    answers-describes id p.describes_on_hold (failed why),
    answers-adds id p.reader_adds_on_hold (failed why),
  )

  pub set_available-Accounts : Accounts id 0 p (run (set_available p))
  unfolding set_available Keeps answers
  set_available-Accounts = ground arith

  closing_effects : List Effect
  closing_effects = set_path_not_ready ∷ map close_reader p.readers ++ run_on_not_ready ∷ []

  silent : answers id closing_effects ≡ 0
  unfolding closing_effects answers
  silent = omega (
    arith,
    answers-append id (map close_reader p.readers) (run_on_not_ready ∷ []),
    answers-closed id p.readers,
  )

  pub set_not_available-Accounts : Accounts id 0 p (set_not_available p)
  unfolding set_not_available Keeps closing_effects
  set_not_available-Accounts = ground (arith, silent)

  pub go_offline-Accounts : (ok : Bool) → Accounts id 0 p (go_offline p ok)
  unfolding go_offline Keeps answers
  go_offline-Accounts ok = ground (arith, set_not_available-Accounts)

  pub nothing-Accounts : Accounts id 0 p (done p [])
  unfolding Keeps answers
  nothing-Accounts = omega arith

  pub close_if_idle-Accounts : Accounts id 0 p (close_if_idle p)
  unfolding Keeps answers
  close_if_idle-Accounts = ground arith

-- One handler after another, of which one brings requests.
module _ (id j : ℕ) (p : StreamPath) (o : Outcome) (f : StreamPath → Outcome) where
  pub then_second :
      Accounts id 0 p o → ((q : StreamPath) → Accounts id j q (f q)) → Accounts id j p (o >>= f)
  then_second h k =
      subst (λ (n : ℕ). Keeps id n (o >>= f)) (omega arith)
        (then-Keeps id j (0 + held id p) o f h k)

  pub then_first :
      Accounts id j p o → ((q : StreamPath) → Accounts id 0 q (f q)) → Accounts id j p (o >>= f)
  then_first h k =
      subst (λ (n : ℕ). Keeps id n (o >>= f)) (omega arith)
        (then-Keeps id 0 (j + held id p) o f h k)

-- The same requests are on hold.
pub same_held :
    (id j : ℕ) (p q : StreamPath) (o : Outcome)
    → held id q ≡ held id p
    → Accounts id j q o
    → Accounts id j p o
same_held id j p q o e h = subst (λ (n : ℕ). Keeps id (j + n) o) e h

module _ (id : ℕ) where
  pub remove_publisher-Accounts :
      (p : StreamPath) (ok : Bool) → Accounts id 0 p (execute_remove_publisher p ok)
  unfolding execute_remove_publisher Keeps answers
  remove_publisher-Accounts p ok =
      then_first id 0 p (go_offline p ok) _ (go_offline-Accounts id p ok) (λ q. omega arith)

  keep_demands-held : (p : StreamPath) → held id (keep_demands p) ≡ held id p
  unfolding keep_demands
  keep_demands-held p = ground arith

  key_frame-silent :
      (s : Source) (es : List Effect) → answers id (key_frame s ++ es) ≡ answers id es
  unfolding answers
  key_frame-silent no_source es = refl
  key_frame-silent redirect es = refl
  key_frame-silent static es = refl
  key_frame-silent (publisher a) es = omega arith

  pub add_reader_post-Accounts :
      (p : StreamPath) (req : AddReaderReq)
      → Accounts id (one_if (req.id == id)) p (run (add_reader_post p req))
  unfolding add_reader_post Keeps answers
  add_reader_post-Accounts p req = ground (
    arith,
    keep_demands-held (record p { readers = req.author ∷ p.readers }),
    key_frame-silent p.source (answer req.id given_stream ∷ []),
  )

  -- The list of the requests that are added is no longer on hold.
  add_held_readers-Accounts :
      (p : StreamPath) (rs : List AddReaderReq)
      → Accounts id (count id (add_ids rs)) p (run (add_held_readers p rs))
  unfolding add_held_readers Keeps answers
  add_held_readers-Accounts p [] = omega arith
  add_held_readers-Accounts p (r ∷ rs) =
      let (q, out) = add_reader_post p r in
      let (q', more) = add_held_readers q rs in
      omega (
        arith,
        answers-append id out more,
        add_reader_post-Accounts p r,
        add_held_readers-Accounts q rs,
      )

  add_reader_post-adds :
      (p : StreamPath) (r : AddReaderReq)
      → (add_reader_post p r).0.reader_adds_on_hold ≡ p.reader_adds_on_hold
  unfolding add_reader_post keep_demands
  add_reader_post-adds p r = ground arith

  add_held_readers-adds :
      (p : StreamPath) (rs : List AddReaderReq)
      → (add_held_readers p rs).0.reader_adds_on_hold ≡ p.reader_adds_on_hold
  unfolding add_held_readers
  add_held_readers-adds p [] = refl
  add_held_readers-adds p (r ∷ rs) =
      add_held_readers-adds (add_reader_post p r).0 rs ∙ add_reader_post-adds p r

  pub consume-Accounts : (p : StreamPath) → Accounts id 0 p (run (consume_on_hold_requests p))
  unfolding consume_on_hold_requests Keeps
  consume-Accounts p =
      let q : StreamPath = record p { describes_on_hold = [] } in
      omega (
        arith,
        answers-append id (answer_describes p.describes_on_hold given_stream)
            (add_held_readers q p.reader_adds_on_hold).1,
        answers-describes id p.describes_on_hold given_stream,
        consumed q p.reader_adds_on_hold,
      )
    where
      consumed :
          (q : StreamPath) (rs : List AddReaderReq)
          → answers id (add_held_readers q rs).1
              + count id (add_held_readers q rs).0.describes_on_hold
            ≡ count id (add_ids rs) + count id q.describes_on_hold
      consumed q rs = omega (
        arith,
        add_held_readers-Accounts q rs,
        ap (λ l. count id (add_ids l)) (add_held_readers-adds q rs),
      )
