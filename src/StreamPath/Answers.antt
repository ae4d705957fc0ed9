-- ===== src/StreamPath/Answers.antt =====
-- internal/core/path.go: no request is lost, and none is answered twice.
use ppmmx.Base.{ℕ, ◌+◌, ◌≡◌, refl, ap, Bool, true, false, List, [], ◌∷◌, ◌++◌, map, ◌==◌, arith}
use ppmmx.StreamPath.Handlers.{answer_describes, answer_adds}
use ppmmx.StreamPath.{
  StreamPath, AddReaderReq, Answer, Effect, answer, start_source, stop_source, reload_source,
  close_source, close_publisher, close_reader, request_key_frame, run_on_demand, run_un_demand,
  run_on_ready, run_on_not_ready, set_path_ready, set_path_not_ready, close_path_if_idle,
  remove_path, start_offline_sub_stream, Outcome, done, panic, preceded_by, ◌>>=◌, Event,
  static_ready_timer, static_close_timer, publisher_ready_timer, publisher_close_timer, reload_conf,
  static_set_ready, static_set_not_ready, describe, add_publisher, remove_publisher, add_reader,
  remove_reader,
}

-- How often a request is among some ids, and how often it is answered.
abbrev pub one_if : Bool → ℕ
one_if true = 1
one_if false = 0

abbrev pub count : ℕ → List ℕ → ℕ
count id [] = 0
count id (x ∷ xs) = one_if (x == id) + count id xs

abbrev pub add_ids : List AddReaderReq → List ℕ
add_ids [] = []
add_ids (r ∷ rs) = r.id ∷ add_ids rs

abbrev pub answered_by : ℕ → Effect → ℕ
answered_by id (answer x a) = one_if (x == id)
answered_by id (close_publisher x) = 0
answered_by id (close_reader x) = 0
answered_by id (request_key_frame x) = 0
answered_by id start_source = 0
answered_by id stop_source = 0
answered_by id reload_source = 0
answered_by id close_source = 0
answered_by id run_on_demand = 0
answered_by id run_un_demand = 0
answered_by id run_on_ready = 0
answered_by id run_on_not_ready = 0
answered_by id set_path_ready = 0
answered_by id set_path_not_ready = 0
answered_by id close_path_if_idle = 0
answered_by id remove_path = 0
answered_by id start_offline_sub_stream = 0

unfoldable pub answers : ℕ → List Effect → ℕ
answers id [] = 0
answers id (e ∷ es) = answered_by id e + answers id es

-- How often a request waits in the path.
abbrev pub held : ℕ → StreamPath → ℕ
held id p = count id p.describes_on_hold + count id (add_ids p.reader_adds_on_hold)

-- How often an event brings a request.
abbrev pub asked : ℕ → Event → ℕ
asked id (describe x) = one_if (x == id)
asked id (add_publisher x author stream_ok sub_ok offline_ok) = one_if (x == id)
asked id (add_reader x author) = one_if (x == id)
asked id (static_set_ready x stream_ok sub_ok) = one_if (x == id)
asked id static_ready_timer = 0
asked id static_close_timer = 0
asked id publisher_ready_timer = 0
asked id publisher_close_timer = 0
asked id (reload_conf c) = 0
asked id (static_set_not_ready x ok) = one_if (x == id)
asked id (remove_publisher x author ok) = one_if (x == id)
asked id (remove_reader x author) = one_if (x == id)

pub answers-append :
    (id : ℕ) (xs ys : List Effect) → answers id (xs ++ ys) ≡ answers id xs + answers id ys
unfolding answers
answers-append id [] ys = omega arith
answers-append id (x ∷ xs) ys = omega (arith, answers-append id xs ys)

-- An outcome that keeps `n` requests of that id, waiting or answered.
unfoldable pub Keeps : ℕ → ℕ → Outcome → Type 0
Keeps id n (done p out) = answers id out + held id p ≡ n
Keeps id n panic = Unit

pub count-append : (id : ℕ) (xs ys : List ℕ) → count id (xs ++ ys) ≡ count id xs + count id ys
count-append id [] ys = omega arith
count-append id (x ∷ xs) ys = omega (arith, count-append id xs ys)

pub add_ids-append : (rs qs : List AddReaderReq) → add_ids (rs ++ qs) ≡ add_ids rs ++ add_ids qs
add_ids-append [] qs = refl
add_ids-append (r ∷ rs) qs = ap (λ l. r.id ∷ l) (add_ids-append rs qs)

pub answers-describes :
    (id : ℕ) (ids : List ℕ) (a : Answer) → answers id (answer_describes ids a) ≡ count id ids
unfolding answers
answers-describes id [] a = refl
answers-describes id (x ∷ xs) a = omega (arith, answers-describes id xs a)

pub answers-adds :
    (id : ℕ) (rs : List AddReaderReq) (a : Answer)
    → answers id (answer_adds rs a) ≡ count id (add_ids rs)
unfolding answers
answers-adds id [] a = refl
answers-adds id (r ∷ rs) a = omega (arith, answers-adds id rs a)

pub answers-closed : (id : ℕ) (rs : List ℕ) → answers id (map close_reader rs) ≡ 0
unfolding answers
answers-closed id [] = refl
answers-closed id (r ∷ rs) = omega (arith, answers-closed id rs)

-- One handler after another; the second may answer `j` requests of its own.
pub then-Keeps :
    (id j m : ℕ) (o : Outcome) (f : StreamPath → Outcome)
    → Keeps id m o
    → ((p : StreamPath) → Keeps id (j + held id p) (f p))
    → Keeps id (j + m) (o >>= f)
unfolding Keeps
then-Keeps id j m (done p out) f h k = after out (f p) (j + held id p) (k p) (omega arith)
  where
    after :
        (before : List Effect) (o : Outcome) (n : ℕ)
        → Keeps id n o
        → answers id before + n ≡ j + m
        → Keeps id (j + m) (preceded_by before o)
    after before (done q more) n g e = omega (arith, answers-append id before more)
    after before panic n g e = tt
then-Keeps id j m panic f h k = tt
