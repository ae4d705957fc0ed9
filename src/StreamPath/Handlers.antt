-- ===== src/StreamPath/Handlers.antt =====
-- internal/core/path.go: the handlers of `runInner`. The Boolean arguments of a handler are the
-- answers of the stream's methods, true for no error.
use ppmmx.Base.{
  ℕ, Bool, true, false, not, ◌&&◌, ◌||◌, List, [], ◌∷◌, ◌++◌, map, leb, ◌==◌, if◌then◌else◌, length,
}
use ppmmx.StreamPath.{
  has_on_demand_static_source, has_on_demand_publisher, Source, no_source, redirect, static,
  publisher, AddReaderReq, StreamPath, Failure, maximum_reader_count, Answer, given_stream, failed,
  Effect, answer, start_source, stop_source, close_reader, request_key_frame, run_on_demand,
  run_un_demand, run_on_ready, run_on_not_ready, set_path_ready, set_path_not_ready,
  start_offline_sub_stream, Outcome, done, panic, ◌>>=◌,
}
use ppmmx.StreamPath.OnDemand.{start, stop, keep}

abbrev pub is_static : Source → Bool
is_static static = true
is_static no_source = false
is_static redirect = false
is_static (publisher a) = false

abbrev pub is_redirect : Source → Bool
is_redirect redirect = true
is_redirect no_source = false
is_redirect static = false
is_redirect (publisher a) = false

abbrev pub is_no_source : Source → Bool
is_no_source no_source = true
is_no_source redirect = false
is_no_source static = false
is_no_source (publisher a) = false

abbrev pub is_empty {ℓ} : {A : Type ℓ} → List A → Bool
is_empty [] = true
is_empty (x ∷ xs) = false

-- One answer for every request of a list.
abbrev pub answer_describes : List ℕ → Answer → List Effect
answer_describes ids a = map (λ id. answer id a) ids

abbrev pub answer_adds : List AddReaderReq → Answer → List Effect
answer_adds reqs a = map (λ (r : AddReaderReq). answer r.id a) reqs

-- All requests on hold fail.
unfoldable pub fail_held : StreamPath → Failure → StreamPath × List Effect
fail_held p why = (
  record p { describes_on_hold = []; reader_adds_on_hold = [] },
  answer_describes p.describes_on_hold (failed why)
      ++ answer_adds p.reader_adds_on_hold (failed why),
)

-- onDemandStaticSourceStart, which wants a static source
unfoldable pub on_demand_static_source_start : StreamPath → Outcome
on_demand_static_source_start p =
    if is_static p.source
    then done (record p { static_source = start p.static_source }) (start_source ∷ [])
    else panic

unfoldable pub on_demand_static_source_stop : StreamPath → Outcome
on_demand_static_source_stop p =
    if is_static p.source
    then done (record p { static_source = stop p.static_source }) (stop_source ∷ [])
    else panic

unfoldable pub on_demand_publisher_start : StreamPath → Outcome
on_demand_publisher_start p =
    done (record p { publisher = start p.publisher; on_un_demand_hook = true }) (run_on_demand ∷ [])

-- A call of the hook when it is nil panics.
unfoldable pub on_demand_publisher_stop : StreamPath → Outcome
on_demand_publisher_stop p =
    if p.on_un_demand_hook
    then done (record p { publisher = stop p.publisher; on_un_demand_hook = false })
        (run_un_demand ∷ [])
    else panic

unfoldable pub set_available : StreamPath → StreamPath × List Effect
set_available p = (
  record p {
    stream = true;
    recorder = p.conf.recorded || p.recorder;
    tencent = p.conf.forward_tencent && p.tencent_enable || p.tencent;
    mmx = if p.conf.forward_mmx && p.mmx_enable then p.conf.mmx_targets else p.mmx;
    on_not_ready_hook = true;
  },
  run_on_ready ∷ set_path_ready ∷ [],
)

unfoldable pub set_not_available : StreamPath → Outcome
set_not_available p =
    if p.on_not_ready_hook
    then done
        (record p { readers = []; recorder = false; tencent = false; mmx = []; stream = false })
        (set_path_not_ready ∷ map close_reader p.readers ++ run_on_not_ready ∷ [])
    else panic

-- The stream goes on without its source; StartOfflineSubStream fails only where it should not.
unfoldable pub go_offline : StreamPath → Bool → Outcome
go_offline p offline_ok =
    if p.conf.always_available
    then if p.stream && offline_ok then done p (start_offline_sub_stream ∷ []) else panic
    else set_not_available p

unfoldable pub execute_remove_publisher : StreamPath → Bool → Outcome
execute_remove_publisher p offline_ok =
    go_offline p offline_ok >>= λ (q : StreamPath). done (record q { source = no_source }) []

abbrev pub mem : ℕ → List ℕ → Bool
mem a [] = false
mem a (r ∷ rs) = a == r || mem a rs

-- delete(pa.readers, r)
abbrev pub remove : ℕ → List ℕ → List ℕ
remove a [] = []
remove a (r ∷ rs) = if a == r then remove a rs else r ∷ remove a rs

abbrev pub key_frame : Source → List Effect
key_frame (publisher a) = request_key_frame a ∷ []
key_frame no_source = []
key_frame redirect = []
key_frame static = []

unfoldable pub keep_demands : StreamPath → StreamPath
keep_demands p =
    if has_on_demand_static_source p.conf
    then record p { static_source = keep p.static_source }
    else if has_on_demand_publisher p.conf
    then record p { publisher = keep p.publisher }
    else p

unfoldable pub add_reader_post : StreamPath → AddReaderReq → StreamPath × List Effect
add_reader_post p req =
    if mem req.author p.readers
    then (p, answer req.id given_stream ∷ [])
    else if not (p.conf.max_readers == 0) && leb p.conf.max_readers (length p.readers)
    then (p, answer req.id (failed maximum_reader_count) ∷ [])
    else (
      keep_demands (record p { readers = req.author ∷ p.readers }),
      key_frame p.source ++ answer req.id given_stream ∷ [],
    )

unfoldable pub add_held_readers : StreamPath → List AddReaderReq → StreamPath × List Effect
add_held_readers p [] = (p, [])
add_held_readers p (req ∷ reqs) =
    let (q, out) = add_reader_post p req in
    let (r, more) = add_held_readers q reqs in (r, out ++ more)

unfoldable pub consume_on_hold_requests : StreamPath → StreamPath × List Effect
consume_on_hold_requests p =
    let (q, out) = add_held_readers (record p { describes_on_hold = [] }) p.reader_adds_on_hold in
    (
      record q { reader_adds_on_hold = [] },
      answer_describes p.describes_on_hold given_stream ++ out,
    )
