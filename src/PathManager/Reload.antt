-- ===== src/PathManager/Reload.antt =====
-- internal/core/path_manager.go: `doReloadConf`. The maps of what has to be recreated and what to be
-- reloaded are the function `change_of` of a configuration's name. A path whose configuration is not
-- among the old ones makes the code read through a nil pointer, which is `none`.
use ppmmx.Base.{ℕ, Bool, false, Option, none, some, List, [], ◌∷◌, ◌++◌, if◌then◌else◌}
use ppmmx.PathConf.{
  Name, eqb_name, PathConf, Confs, lookup_conf, Found, found, invalid_name, not_configured,
  find_path_conf,
}
use ppmmx.PathManager.{
  Managed, Manager, Call, close, reload, find_path, create_path, eqb_conf, path_conf_can_be_updated,
}

pub data Change : Type 0 where
  unchanged to_recreate to_reload : Change

abbrev pub change_between : Option PathConf → Option PathConf → Change
change_between none new = unchanged
change_between (some c) none = unchanged
change_between (some c) (some d) =
    if eqb_conf d c
    then unchanged
    else if path_conf_can_be_updated c d
    then to_reload
    else to_recreate

abbrev pub change_of : Confs → Confs → Name → Change
change_of old new name = change_between (lookup_conf name old) (lookup_conf name new)

-- What is done with a path: `no_old_conf` is the nil pointer.
pub data Verdict : Type 0 where
  keep close_it no_old_conf : Verdict
  reload_it : PathConf → Verdict

abbrev pub by_old_conf : Option PathConf → PathConf → Verdict
by_old_conf none new = no_old_conf
by_old_conf (some old) new = if path_conf_can_be_updated old new then reload_it new else close_it

abbrev pub by_change : Change → PathConf → Verdict
by_change unchanged new = keep
by_change to_recreate new = close_it
by_change to_reload new = reload_it new

unfoldable pub verdict_of : Confs → Confs → Managed → Found → Verdict
verdict_of old confs p (found new matches) =
    if eqb_name new.name p.conf_name
    then by_change (change_of old confs new.name) new
    else by_old_conf (lookup_conf p.conf_name old) new
verdict_of old confs p (invalid_name e) = close_it
verdict_of old confs p not_configured = close_it

-- What is left of the paths, and the calls, in order.
pub record Reloaded : Type 0 where
  pub left : List Managed
  pub calls : List Call

abbrev pub add_left : Managed → List Call → Option Reloaded → Option Reloaded
add_left p calls none = none
add_left p calls (some r) = some (record { left = p ∷ r.left; calls = calls ++ r.calls })

abbrev pub add_closed : ℕ → Option Reloaded → Option Reloaded
add_closed id none = none
add_closed id (some r) = some (record r { calls = close id ∷ r.calls })

abbrev pub apply_verdict : Managed → Verdict → Option Reloaded → Option Reloaded
apply_verdict p keep rest = add_left p [] rest
apply_verdict p close_it rest = add_closed p.id rest
apply_verdict p no_old_conf rest = none
apply_verdict p (reload_it new) rest =
    add_left (record p { conf_name = new.name; sent_conf = new }) (reload p.id new ∷ []) rest

module _ (submatch : ℕ → Name → Option (List Name))
    (sort_slice : (PathConf → PathConf → Bool) → List PathConf → List PathConf) where
  unfoldable pub reload_paths : Confs → Confs → List Managed → Option Reloaded
  reload_paths old confs [] = some (record { left = []; calls = [] })
  reload_paths old confs (p ∷ ps) =
      apply_verdict p (verdict_of old confs p (find_path_conf submatch sort_slice confs p.name))
        (reload_paths old confs ps)

-- The static paths that are not there are created.
abbrev pub with_static : Option ℕ → Option Managed → Manager → PathConf → Name → Manager × List Call
with_static none none m c name = create_path m c name []
with_static none (some p) m c name = (m, [])
with_static (some r) there m c name = (m, [])

unfoldable pub create_static : Confs → Manager → Manager × List Call
create_static [] m = (m, [])
create_static ((key, c) ∷ cs) m =
    let (m', calls) = with_static c.regexp (find_path key m.paths) m c key in
    let (last, more) = create_static cs m' in (last, calls ++ more)

abbrev pub then_static : Manager → Confs → Option Reloaded → Option (Manager × List Call)
then_static m confs none = none
then_static m confs (some r) =
    let (last, more) = create_static confs (record m { path_confs = confs; paths = r.left }) in
    some (last, r.calls ++ more)

module _ (submatch : ℕ → Name → Option (List Name))
    (sort_slice : (PathConf → PathConf → Bool) → List PathConf → List PathConf) where
  unfoldable pub do_reload_conf : Manager → Confs → Option (Manager × List Call)
  do_reload_conf m confs =
      then_static m confs (reload_paths submatch sort_slice m.path_confs confs m.paths)

-- `initialize`: a manager with those configurations.
unfoldable pub new_manager : Confs → Manager × List Call
new_manager confs =
    create_static confs (record {
      path_confs = confs;
      hls_server = false;
      admin_store = none;
      paths = [];
      next_id = 0;
    })
