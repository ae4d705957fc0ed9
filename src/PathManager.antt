-- ===== src/PathManager.antt =====
-- internal/core/path_manager.go: the map of the paths, who is handed which path, and what a reload of
-- the configuration does to each. The manager runs in one goroutine, so a handler is one step: it
-- returns the manager after it and what it called, in order. A path is known by the number that it
-- got when it was created, as the code knows it by its pointer. `submatch` and `sort_slice` are
-- those of PathConf, and what the authentication manager answers to a request is `authenticate`, by
-- the user that it gives.
pub mod Reload
pub mod Updates
pub mod Follows
pub mod Statics
pub mod Sessions
pub mod Counts
pub mod Balance
pub mod Handlers
pub mod Sent
pub mod Steps
pub mod Running
mod Tests
use ppmmx.Base.{
  ℕ, zero, suc, ◌+◌, ◌-◌, Bool, true, false, not, ◌&&◌, ◌||◌, Option, none, some, List, [], ◌∷◌,
  ◌++◌, map, ltb, leb, ◌==◌, if◌then◌else◌,
}
use ppmmx.PathConf.{
  Name, eqb_name, PathConf, Confs, NameError, Found, found, invalid_name, not_configured,
  find_path_conf,
}

-- What the manager keeps of a path: `pending` is its `pendingRequests`, and `sent_conf` is the
-- configuration that it was created with, or that the last reload sent to it has.
pub record Managed : Type 0 where
  pub id : ℕ
  pub name : Name
  pub conf_name : Name
  pub sent_conf : PathConf
  pub ready : Bool
  pub pending : ℕ

-- `admin_store` answers IsStreamAllowed, with `none` for an error; `next_id` numbers the paths.
pub record Manager : Type 0 where
  pub path_confs : Confs
  pub hls_server : Bool
  pub admin_store : Option (Name → Option Bool)
  pub paths : List Managed
  pub next_id : ℕ

-- A path is created with its configuration, its name, and what the expression captured.
pub data Call : Type 0 where
  create : ℕ → PathConf → Name → List Name → Call
  close : ℕ → Call
  reload : ℕ → PathConf → Call
  hls_ready hls_not_ready : ℕ → Call

pub data Refusal : Type 0 where
  no_conf : Option NameError → Refusal
  not_authenticated not_allowed conf_has_changed not_found : Refusal

pub data Reply : Type 0 where
  given : ℕ → Option ℕ → Reply
  given_conf : PathConf → ℕ → Reply
  refused : Refusal → Reply

unfoldable pub find_path : Name → List Managed → Option Managed
find_path name [] = none
find_path name (p ∷ ps) = if eqb_name p.name name then some p else find_path name ps

unfoldable pub delete_path : Name → List Managed → List Managed
delete_path name [] = []
delete_path name (p ∷ ps) =
    if eqb_name p.name name then delete_path name ps else p ∷ delete_path name ps

abbrev pub new_path : ℕ → PathConf → Name → Managed
new_path id c name = record {
  id = id;
  name = name;
  conf_name = c.name;
  sent_conf = c;
  ready = false;
  pending = 0;
}

unfoldable pub create_path : Manager → PathConf → Name → List Name → Manager × List Call
create_path m c name matches = (
  record m {
    paths = new_path m.next_id c name ∷ delete_path name m.paths;
    next_id = suc m.next_id;
  },
  create m.next_id c name matches ∷ [],
)

-- pendingRequests.Add(1) of the path with that number
unfoldable pub add_pending : ℕ → List Managed → List Managed
add_pending id [] = []
add_pending id (p ∷ ps) =
    (if p.id == id then record p { pending = suc p.pending } else p) ∷ add_pending id ps

-- pendingRequests.Add(-1), after the path has handled a request
unfoldable pub drop_pending : ℕ → List Managed → List Managed
drop_pending id [] = []
drop_pending id (p ∷ ps) =
    (if p.id == id then record p { pending = p.pending - 1 } else p) ∷ drop_pending id ps

pub record Access : Type 0 where
  pub name : Name
  pub skip_auth : Bool
  pub request : ℕ

-- The manager, what it called, and its reply.
pub record Handled : Type 0 where
  pub manager : Manager
  pub calls : List Call
  pub reply : Reply

abbrev pub refuse : Manager → Refusal → Handled
refuse m why = record { manager = m; calls = []; reply = refused why }

abbrev pub give : Manager → List Call → Option Managed → Option ℕ → Handled
give m calls none user = record { manager = m; calls = calls; reply = refused not_found }
give m calls (some p) user = record {
  manager = record m { paths = add_pending p.id m.paths };
  calls = calls;
  reply = given p.id user;
}

abbrev pub made : Manager → PathConf → Name → List Name → Option Managed → Manager × List Call
made m c name matches none = create_path m c name matches
made m c name matches (some p) = (m, [])

-- The path is created if it does not exist, and handed out with one more pending request.
unfoldable pub hand_out : Manager → PathConf → List Name → Name → Option ℕ → Handled
hand_out m c matches name user =
    let (m', calls) = made m c name matches (find_path name m.paths) in
    give m' calls (find_path name m'.paths) user

unfoldable pub is_stream_allowed : Manager → Name → Bool
is_stream_allowed m name = elim m.admin_store [
  | none ↦ true
  | some store ↦ elim (store name) [ none ↦ true | some allowed ↦ allowed ]
]

unfoldable pub eqb_regexp : Option ℕ → Option ℕ → Bool
eqb_regexp none none = true
eqb_regexp none (some s) = false
eqb_regexp (some r) none = false
eqb_regexp (some r) (some s) = r == s

-- conf.Path.Equal
unfoldable pub eqb_conf : PathConf → PathConf → Bool
eqb_conf c d =
    eqb_name c.name d.name
    && eqb_regexp c.regexp d.regexp
    && c.reloadable == d.reloadable
    && c.fixed == d.fixed

-- The fields that are copied to the clone are those that may differ.
unfoldable pub path_conf_can_be_updated : PathConf → PathConf → Bool
path_conf_can_be_updated old new =
    eqb_conf new (record old { name = new.name; regexp = new.regexp; reloadable = new.reloadable })

abbrev pub differs : Option PathConf → PathConf → Bool
differs none c = false
differs (some d) c = not (eqb_conf c d)

abbrev pub with_conf : Manager → Found → (PathConf → List Name → Handled) → Handled
with_conf m (found c matches) go_on = go_on c matches
with_conf m (invalid_name e) go_on = refuse m (no_conf (some e))
with_conf m not_configured go_on = refuse m (no_conf none)

abbrev pub with_user : Manager → Option ℕ → (Option ℕ → Handled) → Handled
with_user m none go_on = refuse m not_authenticated
with_user m (some user) go_on = go_on (some user)

-- Without a name when the authentication is skipped.
abbrev pub authenticated : (ℕ → Option ℕ) → Manager → Access → (Option ℕ → Handled) → Handled
authenticated authenticate m a go_on =
    if a.skip_auth then go_on none else with_user m (authenticate a.request) go_on

abbrev pub answer_conf : Manager → PathConf → Option ℕ → Handled
answer_conf m c none = refuse m not_authenticated
answer_conf m c (some user) = record { manager = m; calls = []; reply = given_conf c user }

module _ (submatch : ℕ → Name → Option (List Name))
    (sort_slice : (PathConf → PathConf → Bool) → List PathConf → List PathConf)
    (authenticate : ℕ → Option ℕ) where
  -- doDescribe and doAddReader; the answer to a description leaves the user out.
  unfoldable pub do_add_reader : Manager → Access → Handled
  do_add_reader m a =
      with_conf m (find_path_conf submatch sort_slice m.path_confs a.name)
        (λ (c : PathConf) (matches : List Name).
          authenticated authenticate m a (λ (user : Option ℕ). hand_out m c matches a.name user))

  unfoldable pub do_add_publisher : Manager → Access → Option PathConf → Handled
  do_add_publisher m a conf_to_compare =
      with_conf m (find_path_conf submatch sort_slice m.path_confs a.name)
        (λ (c : PathConf) (matches : List Name).
          if not (is_stream_allowed m a.name)
          then refuse m not_allowed
          else if differs conf_to_compare c
          then refuse m conf_has_changed
          else authenticated authenticate m a
              (λ (user : Option ℕ). hand_out m c matches a.name user))

  unfoldable pub do_find_path_conf : Manager → Access → Handled
  do_find_path_conf m a =
      with_conf m (find_path_conf submatch sort_slice m.path_confs a.name)
        (λ (c : PathConf) (matches : List Name). answer_conf m c (authenticate a.request))

-- doClosePath; the path is waited for, so it has ended after it.
unfoldable pub do_close_path : Manager → Managed → Manager × List Call
do_close_path m p = (record m { paths = delete_path p.name m.paths }, close p.id ∷ [])

unfoldable pub find_id : ℕ → List Managed → Option Managed
find_id id [] = none
find_id id (p ∷ ps) = if p.id == id then some p else find_id id ps

abbrev pub close_idle : Manager → Option Managed → Manager × List Call
close_idle m none = (m, [])
close_idle m (some p) = if p.pending == 0 then do_close_path m p else (m, [])

-- chClosePathIfIdle. A path that asks lives, and a path that lives is in the map, since doClosePath
-- waits for the end of it.
unfoldable pub close_path_if_idle : Manager → ℕ → Manager × List Call
close_path_if_idle m id = close_idle m (find_id id m.paths)

unfoldable pub delete_id : ℕ → List Managed → List Managed
delete_id id [] = []
delete_id id (p ∷ ps) = if p.id == id then delete_id id ps else p ∷ delete_id id ps

-- chRemovePath: the entry goes if it is that path.
abbrev pub remove_path : Manager → ℕ → Manager
remove_path m id = record m { paths = delete_id id m.paths }

unfoldable pub set_ready : Bool → ℕ → List Managed → List Managed
set_ready ready id [] = []
set_ready ready id (p ∷ ps) =
    (if p.id == id then record p { ready = ready } else p) ∷ set_ready ready id ps

abbrev pub tell_hls : Manager → Option Managed → Call → List Call
tell_hls m none call = []
tell_hls m (some p) call = if m.hls_server then call ∷ [] else []

unfoldable pub do_set_path_ready : Manager → ℕ → Manager × List Call
do_set_path_ready m id =
    (record m { paths = set_ready true id m.paths }, tell_hls m (find_id id m.paths) (hls_ready id))

unfoldable pub do_set_path_not_ready : Manager → ℕ → Manager × List Call
do_set_path_not_ready m id = (
  record m { paths = set_ready false id m.paths },
  tell_hls m (find_id id m.paths) (hls_not_ready id),
)

unfoldable pub ready_paths : List Managed → List ℕ
ready_paths [] = []
ready_paths (p ∷ ps) = if p.ready then p.id ∷ ready_paths ps else ready_paths ps

abbrev pub do_set_hls_server : Manager → Bool → Manager × List ℕ
do_set_hls_server m there = (record m { hls_server = there }, ready_paths m.paths)
