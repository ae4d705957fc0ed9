-- ===== src/StreamPath/Safety.antt =====
-- internal/core/path.go: no handler panics, and each leaves a sound state.
use ppmmx.Base.{
  ℕ, ◌≤◌, ◌≡◌, refl, ap, sym, subst, ◌⊎◌, Bool, true, false, not, ◌&&◌, List, [], ◌∷◌,
  if◌then◌else◌, length, arith,
}
use ppmmx.StreamPath.{
  has_static_source, has_on_demand_static_source, has_on_demand_publisher, close_publisher, Source,
  no_source, redirect, static, publisher, StreamPath, AddReaderReq, Outcome, done, panic, ◌>>=◌,
  preceded_by, Effect, answer, closed,
}
use ppmmx.StreamPath.OnDemand.{arrived, is_initial, is_waiting}
use ppmmx.StreamPath.Handlers.{
  fail_held, on_demand_static_source_start, on_demand_static_source_stop, on_demand_publisher_start,
  on_demand_publisher_stop, set_available, set_not_available, go_offline, execute_remove_publisher,
  add_reader_post, add_held_readers, keep_demands, consume_on_hold_requests, remove,
}
use ppmmx.StreamPath.Steps.{
  do_static_ready_timer, do_static_close_timer, do_publisher_ready_timer, do_publisher_close_timer,
  make_available, make_room, publisher_online, do_static_set_not_ready, do_describe,
  do_remove_publisher, do_add_publisher, do_remove_reader, release_demands, is_author,
  takes_publishers,
}
use ppmmx.StreamPath.Soundness.{IsSound, Ends, Fine, is_publisher}

by_author : (x : Source) (a : ℕ) → is_author x a ≡ true → is_publisher x ≡ true
by_author (publisher b) a h = refl
by_author no_source a h = cc
by_author redirect a h = cc
by_author static a h = cc

pub then-Ends :
    (P Q : StreamPath → Type 0) (o : Outcome) (f : StreamPath → Outcome)
    → Ends P o
    → ((q : StreamPath) → P q → Ends Q (f q))
    → Ends Q (o >>= f)
unfolding Ends
then-Ends P Q (done q out) f h k = after out (f q) (k q h)
  where
    after : (before : List Effect) (o : Outcome) → Ends Q o → Ends Q (preceded_by before o)
    after before (done r more) g = g
    after before panic g = g
then-Ends P Q panic f h k = absurd h

module _ (p : StreamPath) (s : IsSound p) where
  pub static_ready_timer-Fine : Fine (do_static_ready_timer p)
  unfolding do_static_ready_timer fail_held on_demand_static_source_stop Ends
  static_ready_timer-Fine = ground arith

  pub static_close_timer-Fine : Fine (do_static_close_timer p)
  unfolding do_static_close_timer set_not_available on_demand_static_source_stop Ends
  static_close_timer-Fine = ground arith

  pub publisher_ready_timer-Fine : Fine (do_publisher_ready_timer p)
  unfolding do_publisher_ready_timer fail_held on_demand_publisher_stop Ends
  publisher_ready_timer-Fine = ground arith

  pub publisher_close_timer-Fine : Fine (do_publisher_close_timer p)
  unfolding do_publisher_close_timer on_demand_publisher_stop Ends
  publisher_close_timer-Fine = ground arith

  remove_publisher-Fine : is_publisher p.source ≡ true → Fine (execute_remove_publisher p true)
  unfolding execute_remove_publisher go_offline set_not_available Ends
  remove_publisher-Fine h = ground arith

  pub do_remove_publisher-Fine : (id a : ℕ) → Fine (do_remove_publisher p id a true)
  unfolding do_remove_publisher Ends
  do_remove_publisher-Fine id a =
      then-Ends IsSound IsSound _ (λ (q : StreamPath). done q (answer id closed ∷ []))
        (ground (arith, remove_publisher-Fine, by_author p.source a)) (λ q h. h)

  pub set_not_ready-Fine :
      (id : ℕ)
      → p.stream ≡ true
      → has_static_source p.conf ≡ true
      → (has_on_demand_static_source p.conf ≡ false) ⊎ (is_waiting p.static_source.state ≡ false)
      → Fine (do_static_set_not_ready p id true)
  unfolding do_static_set_not_ready go_offline set_not_available on_demand_static_source_stop Ends
  set_not_ready-Fine id h k l = ground arith

  pub describe-Fine : (id : ℕ) → Fine (do_describe p id)
  unfolding do_describe on_demand_static_source_start on_demand_publisher_start Ends
  describe-Fine id = ground arith

  keep_demands-IsSound : p.stream ≡ true → IsSound (keep_demands p)
  unfolding keep_demands
  keep_demands-IsSound h = ground arith

pub add_reader_post-IsSound :
    (p : StreamPath) (r : AddReaderReq)
    → IsSound p
    → p.stream ≡ true
    → IsSound (add_reader_post p r).0 × ((add_reader_post p r).0.stream ≡ true)
unfolding add_reader_post keep_demands
add_reader_post-IsSound p r s h = ground arith

add_held_readers-IsSound :
    (p : StreamPath) (rs : List AddReaderReq)
    → IsSound p
    → p.stream ≡ true
    → IsSound (add_held_readers p rs).0
unfolding add_held_readers
add_held_readers-IsSound p [] s h = s
add_held_readers-IsSound p (r ∷ rs) s h =
    let (s', h') = add_reader_post-IsSound p r s h in
    add_held_readers-IsSound (add_reader_post p r).0 rs s' h'

pub consume-IsSound :
    (p : StreamPath) → IsSound p → p.stream ≡ true → IsSound (consume_on_hold_requests p).0
unfolding consume_on_hold_requests
consume-IsSound p s h =
    ground
      (arith, add_held_readers-IsSound (record p { describes_on_hold = [] }) p.reader_adds_on_hold)

length-remove : (a : ℕ) (rs : List ℕ) → length (remove a rs) ≤ length rs
length-remove a [] = omega arith
length-remove a (r ∷ rs) = ground (arith, length-remove a rs)

pub remove_reader-Fine : (p : StreamPath) (id a : ℕ) → IsSound p → Fine (do_remove_reader p id a)
unfolding do_remove_reader release_demands Ends
remove_reader-Fine p id a s = ground (arith, length-remove a p.readers)

publisher_online-Fine :
    (p : StreamPath) (id a : ℕ) (ok : Bool)
    → IsSound p
    → p.stream ≡ true
    → takes_publishers p.conf.source ≡ true
    → Fine (publisher_online id a ok p)
unfolding publisher_online Ends
publisher_online-Fine p id a true s h k = consume-IsSound q sound kept
  where
    q : StreamPath
    q =
        if has_on_demand_publisher p.conf && not (is_initial p.publisher.state)
        then record p { source = publisher a; publisher = arrived p.publisher }
        else record p { source = publisher a }

    sound : IsSound q
    sound = ground arith

    kept : q.stream ≡ true
    kept = ground arith
publisher_online-Fine p id a false s h k = s

pub if-Fine :
    (b : Bool) (x y : Outcome)
    → (b ≡ true → Fine x)
    → (b ≡ false → Fine y)
    → Fine (if b then x else y)
if-Fine true x y h k = h refl
if-Fine false x y h k = k refl

pub preceded-Fine : (out : List Effect) (o : Outcome) → Fine o → Fine (preceded_by out o)
unfolding Ends
preceded-Fine out (done q more) h = h
preceded-Fine out panic h = h

set_available-IsSound :
    (p : StreamPath)
    → IsSound p
    → has_on_demand_static_source p.conf ≡ false
    → IsSound (set_available p).0 × ((set_available p).0.stream ≡ true)
unfolding set_available
set_available-IsSound p s h = ground arith

same_source :
    (p : StreamPath)
    → takes_publishers p.conf.source ≡ true
    → takes_publishers (set_available p).0.conf.source ≡ true
unfolding set_available
same_source p h = h

make_publisher-Fine :
    (p : StreamPath) (id a : ℕ) (stream_ok sub_ok : Bool)
    → IsSound p
    → takes_publishers p.conf.source ≡ true
    → (p.conf.always_available ≡ true) ⊎ (stream_ok ≡ true)
    → Fine (make_available p id stream_ok (publisher_online id a sub_ok))
unfolding make_available
make_publisher-Fine p id a stream_ok sub_ok s k ok =
    if-Fine p.conf.always_available _ _
      (λ always. publisher_online-Fine p id a sub_ok s (ground arith) k)
      (λ made. if-Fine stream_ok _ _ (λ there. fresh) (λ failing. absurd (ground arith)))
  where
    fresh :
        Fine (preceded_by (set_available p).1 (publisher_online id a sub_ok (set_available p).0))
    fresh =
        let (s', h) = set_available-IsSound p s (ground arith) in
        preceded-Fine (set_available p).1 (publisher_online id a sub_ok (set_available p).0)
          (publisher_online-Fine (set_available p).0 id a sub_ok s' h (same_source p k))

-- A path that a publisher may come to, when the stream can be made.
record Vacant (ok : Bool) (q : StreamPath) : Type 0 where
  sound : IsSound q
  open_to : takes_publishers q.conf.source ≡ true
  possible : (q.conf.always_available ≡ true) ⊎ (ok ≡ true)

remove_publisher-Vacant :
    (p : StreamPath) (ok : Bool)
    → Vacant ok p
    → is_publisher p.source ≡ true
    → Ends (Vacant ok) (execute_remove_publisher p true)
unfolding execute_remove_publisher go_offline set_not_available Ends
remove_publisher-Vacant p ok v h = ground arith

make_room-Fine :
    (p : StreamPath) (s : Source) (id : ℕ) (ok : Bool) (go_on : StreamPath → Outcome)
    → p.source ≡ s
    → Vacant ok p
    → ((q : StreamPath) → Vacant ok q → Fine (go_on q))
    → Fine (make_room s p id true go_on)
unfolding Ends
make_room-Fine p no_source id ok go_on e v k = k p v
make_room-Fine p (publisher a) id ok go_on e v k =
    if-Fine p.conf.override_publisher _ _
      (λ taken.
        then-Ends (Vacant ok) IsSound
          (done p (close_publisher a ∷ [])
            >>= (λ (q : StreamPath). execute_remove_publisher q true))
          go_on
          (then-Ends (λ q. q ≡ p) (Vacant ok) (done p (close_publisher a ∷ [])) _ refl
            (λ q same.
              subst (λ (r : StreamPath). Ends (Vacant ok) (execute_remove_publisher r true))
                (sym same) (remove_publisher-Vacant p ok v (ap is_publisher e))))
          k)
      (λ refused. v.sound)
make_room-Fine p redirect id ok go_on e v k = absurd (ground arith)
make_room-Fine p static id ok go_on e v k = absurd (ground arith)

pub add_publisher-Fine :
    (p : StreamPath) (id a : ℕ) (stream_ok sub_ok : Bool)
    → IsSound p
    → (p.conf.always_available ≡ true) ⊎ (stream_ok ≡ true)
    → Fine (do_add_publisher p id a stream_ok sub_ok true)
unfolding do_add_publisher Ends
add_publisher-Fine p id a stream_ok sub_ok s ok =
    if-Fine (takes_publishers p.conf.source) _ _
      (λ takes.
        make_room-Fine p p.source id stream_ok _ refl
          (record { sound = s; open_to = takes; possible = ok })
          (λ q v. make_publisher-Fine q id a stream_ok sub_ok v.sound v.open_to v.possible))
      (λ other. s)
