-- ===== src/PathManager/Sessions.antt =====
-- internal/core/path_manager.go: the manager, the paths and those whose requests were handed a path,
-- by the steps that they take in any order. `handle` is a path that handles a request, up to
-- pendingRequests.Add(-1), and `give_up` a request whose path has ended. A path may ask at any time
-- to be closed as idle, which covers what `runInner` does.
use ppmmx.Base.{ℕ, suc, Bool, Option, none, some, List, [], ◌∷◌, ◌==◌, if◌then◌else◌, ltb}
use ppmmx.PathConf.{Name, PathConf, Confs}
use ppmmx.PathManager.{
  Managed, Manager, Call, Access, Reply, given, given_conf, refused, Handled, do_add_reader,
  do_add_publisher, drop_pending, find_id, close_path_if_idle, remove_path, do_set_path_ready,
  do_set_path_not_ready, do_set_hls_server,
}
use ppmmx.PathManager.Reload.{do_reload_conf, new_manager}

-- `in_flight` has the path of every request that was handed out and not handled yet.
pub record Sessions : Type 0 where
  pub manager : Manager
  pub in_flight : List ℕ

unfoldable pub count_of : ℕ → List ℕ → ℕ
count_of id [] = 0
count_of id (x ∷ xs) = if x == id then suc (count_of id xs) else count_of id xs

unfoldable pub remove_one : ℕ → List ℕ → List ℕ
remove_one id [] = []
remove_one id (x ∷ xs) = if x == id then xs else x ∷ remove_one id xs

pub data Event : Type 0 where
  describe add_reader : Access → Event
  add_publisher : Access → Option PathConf → Event
  handle give_up ask_close removed : ℕ → Event
  set_ready set_not_ready : ℕ → Event
  set_hls_server : Bool → Event
  set_admin_store : (Name → Option Bool) → Event
  reload_confs : Confs → Event

abbrev pub new_in_flight : Reply → List ℕ → List ℕ
new_in_flight (given id user) xs = id ∷ xs
new_in_flight (given_conf c user) xs = xs
new_in_flight (refused why) xs = xs

abbrev pub handed : Sessions → Handled → Sessions
handed s h = record { manager = h.manager; in_flight = new_in_flight h.reply s.in_flight }

abbrev pub with_manager : Sessions → Manager → Sessions
with_manager s m = record s { manager = m }

abbrev pub after_reload : Sessions → Option (Manager × List Call) → Option Sessions
after_reload s none = none
after_reload s (some (m, calls)) = some (with_manager s m)

abbrev pub ended : Option Managed → List ℕ → List ℕ → List ℕ
ended none left xs = left
ended (some p) left xs = xs

abbrev pub after_step : Option Sessions → (Sessions → Option Sessions) → Option Sessions
after_step none go_on = none
after_step (some s) go_on = go_on s

module _ (submatch : ℕ → Name → Option (List Name))
    (sort_slice : (PathConf → PathConf → Bool) → List PathConf → List PathConf)
    (authenticate : ℕ → Option ℕ) where
  -- One round of `run`, or what others do; `none` is a nil pointer.
  unfoldable pub step : Sessions → Event → Option Sessions
  step s (describe a) = some (handed s (do_add_reader submatch sort_slice authenticate s.manager a))
  step s (add_reader a) =
      some (handed s (do_add_reader submatch sort_slice authenticate s.manager a))
  step s (add_publisher a c) =
      some (handed s (do_add_publisher submatch sort_slice authenticate s.manager a c))
  step s (handle id) = some (
      if ltb 0 (count_of id s.in_flight)
      then record {
        manager = record s.manager { paths = drop_pending id s.manager.paths };
        in_flight = remove_one id s.in_flight;
      }
      else s)
  step s (give_up id) = some (record s {
    in_flight = ended (find_id id s.manager.paths) (remove_one id s.in_flight) s.in_flight;
  })
  step s (ask_close id) = some (with_manager s (close_path_if_idle s.manager id).0)
  step s (removed id) = some (with_manager s (remove_path s.manager id))
  step s (set_ready id) = some (with_manager s (do_set_path_ready s.manager id).0)
  step s (set_not_ready id) = some (with_manager s (do_set_path_not_ready s.manager id).0)
  step s (set_hls_server there) = some (with_manager s (do_set_hls_server s.manager there).0)
  step s (set_admin_store store) =
      some (with_manager s (record s.manager { admin_store = some store }))
  step s (reload_confs confs) = after_reload s (do_reload_conf submatch sort_slice s.manager confs)

  unfoldable pub run : Sessions → List Event → Option Sessions
  run s [] = some s
  run s (e ∷ es) = after_step (step s e) (λ (t : Sessions). run t es)

abbrev pub start_sessions : Confs → Sessions
start_sessions confs = record { manager = (new_manager confs).0; in_flight = [] }
