-- ===== src/PathManager/Running.antt =====
-- internal/core/path_manager.go: what every run of the manager with its sessions keeps.
use ppmmx.Base.{ℕ, Bool, Option, List, [], All}
use ppmmx.PathConf.{Name, PathConf, Confs}
use ppmmx.PathManager.Reload.{new_manager}
use ppmmx.PathManager.Sessions.{Event, run, start_sessions}
use ppmmx.PathManager.Follows.{IsUsable}
use ppmmx.PathManager.Statics.{new_manager-IsCurrent}
use ppmmx.PathManager.Balance.{create_static-Balanced}
use ppmmx.PathManager.Steps.{IsSound, IsPossible, Goes, run-Goes}

module _ (submatch : ℕ → Name → Option (List Name))
    (sort_slice : (PathConf → PathConf → Bool) → List PathConf → List PathConf)
    (authenticate : ℕ → Option ℕ) where
  start_sessions-IsSound :
      (confs : Confs)
      → IsUsable submatch sort_slice confs
      → IsSound submatch sort_slice authenticate (start_sessions confs)
  unfolding new_manager
  start_sessions-IsSound confs u =
      let current = new_manager-IsCurrent submatch sort_slice confs u.keyed in
      record {
        confs = confs;
        usable = u;
        sent = record {
          confs_there = current.in_force.confs_there;
          sent = current.in_force.all_follow;
        };
        balanced = create_static-Balanced confs _ [] (record { fits = tt; old = tt });
      }

  -- From the start on, with maps of configurations that have each one under its name and whose
  -- regular expressions sort.Slice sorts, whatever is asked for, handled, closed, reloaded or set,
  -- in whatever order: no step reads through a nil pointer, and after all of them every path has
  -- been sent, when it was made or by its last reload, the configuration that `FindPathConf`
  -- gives for its name, and its `pendingRequests` is the number of the requests that were handed
  -- that path and that it has not handled yet.
  pub run-IsSound :
      (confs : Confs) (es : List Event)
      → IsUsable submatch sort_slice confs
      → All (IsPossible submatch sort_slice authenticate) es
      → Goes submatch sort_slice authenticate
          (run submatch sort_slice authenticate (start_sessions confs) es)
  run-IsSound confs es u possible =
      run-Goes submatch sort_slice authenticate (start_sessions confs) es possible
        (start_sessions-IsSound confs u)
