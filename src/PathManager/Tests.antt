-- ===== src/PathManager/Tests.antt =====
-- internal/core/path_manager.go on concrete configurations and requests.
use Prim.Native.Char.{code}
use Prim.Native.String.{String}
use ppmmx.Base.{
  ℕ, ◌≡◌, refl, Bool, true, false, Option, none, some, List, [], ◌∷◌, ◌==◌, if◌then◌else◌,
}
use ppmmx.PathConf.{
  Name, eqb_name, is_path_char, all_path_chars, any_dot_segment, split_slash, is_valid_path_name,
  PathConf, Confs, lookup_conf, regexp_confs, first_match, find_path_conf,
}
use ppmmx.PathManager.{
  Manager, Call, close, reload, Access, refused, not_allowed, find_path, delete_path, create_path,
  add_pending, drop_pending, find_id, hand_out, is_stream_allowed, eqb_regexp, eqb_conf,
  path_conf_can_be_updated, do_add_reader, do_add_publisher, close_path_if_idle,
}
use ppmmx.PathManager.Reload.{new_manager, verdict_of, reload_paths, create_static, do_reload_conf}
use ppmmx.PathManager.Follows.{Follows, IsUsable}
use ppmmx.PathManager.Statics.{Reloads, do_reload_conf-Reloads}
use ppmmx.PathManager.Sessions.{
  Sessions, count_of, remove_one, Event, add_reader, handle, ask_close, reload_confs, step, run,
  start_sessions,
}
use ppmmx.PathManager.Steps.{Goes}
use ppmmx.PathManager.Running.{run-IsSound}

abbrev bytes : String → Name
bytes String.[] = []
bytes (String.◌∷◌ c s) = code c ∷ bytes s

abbrev static_conf : ℕ → ℕ → PathConf
static_conf reloadable fixed = record {
  name = bytes "cam";
  regexp = none;
  reloadable = reloadable;
  fixed = fixed;
}

abbrev any_conf : ℕ → ℕ → PathConf
any_conf reloadable fixed = record {
  name = bytes "~^a";
  regexp = some 1;
  reloadable = reloadable;
  fixed = fixed;
}

abbrev confs : ℕ → ℕ → Confs
confs reloadable fixed =
    (bytes "cam", static_conf reloadable 0) ∷ (bytes "~^a", any_conf 0 fixed) ∷ []

-- Number 1 is ^a.
abbrev submatch : ℕ → Name → Option (List Name)
submatch r [] = none
submatch r (c ∷ cs) = if c == b'a' then some (bytes "a" ∷ []) else none

-- There is one regular expression at most.
abbrev sort_slice : (PathConf → PathConf → Bool) → List PathConf → List PathConf
sort_slice less cs = cs

abbrev authenticate : ℕ → Option ℕ
authenticate request = if request == 13 then none else some request

abbrev reader : Access
reader = record { name = bytes "ab"; skip_auth = false; request = 5 }

confs-IsUsable : (reloadable fixed : ℕ) → IsUsable submatch sort_slice (confs reloadable fixed)
unfolding regexp_confs lookup_conf eqb_name
confs-IsUsable reloadable fixed = record {
  keyed = (refl, refl, (refl, refl, tt));
  sorted = record { kept = λ c a. a; no_other = λ c a. a; ordered = (tt, tt) };
}

abbrev calls_of : Option (Manager × List Call) → List Call
calls_of none = []
calls_of (some (m, calls)) = calls

abbrev two_paths : Manager
two_paths = record {
  path_confs = confs 0 0;
  hls_server = false;
  admin_store = none;
  paths =
      record {
        id = 1;
        name = bytes "ab";
        conf_name = bytes "~^a";
        sent_conf = any_conf 0 0;
        ready = true;
        pending = 0;
      }
      ∷ record {
        id = 0;
        name = bytes "cam";
        conf_name = bytes "cam";
        sent_conf = static_conf 0 0;
        ready = false;
        pending = 0;
      }
      ∷ [];
  next_id = 2;
}

-- What can be reloaded is, and what cannot is closed.
reload_and_close :
    calls_of (do_reload_conf submatch sort_slice two_paths (confs 7 9))
    ≡ close 1 ∷ reload 0 (static_conf 7 0) ∷ []
unfolding do_reload_conf reload_paths verdict_of create_static find_path find_path_conf first_match
    lookup_conf is_valid_path_name all_path_chars is_path_char any_dot_segment split_slash
    regexp_confs eqb_name eqb_conf eqb_regexp path_conf_can_be_updated
reload_and_close = refl

abbrev refuse_all : Manager
refuse_all = record two_paths { admin_store = some (λ name. some false) }

publisher_refused :
    (do_add_publisher submatch sort_slice authenticate refuse_all reader none).reply
    ≡ refused not_allowed
unfolding do_add_publisher is_stream_allowed find_path_conf first_match lookup_conf
    is_valid_path_name all_path_chars is_path_char any_dot_segment split_slash regexp_confs eqb_name
publisher_refused = refl

two_paths-Follows :
    Follows submatch sort_slice (confs 0 0) (record {
      id = 1;
      name = bytes "ab";
      conf_name = bytes "~^a";
      sent_conf = any_conf 0 0;
      ready = true;
      pending = 0;
    })
    × Follows submatch sort_slice (confs 0 0) (record {
      id = 0;
      name = bytes "cam";
      conf_name = bytes "cam";
      sent_conf = static_conf 0 0;
      ready = false;
      pending = 0;
    })
unfolding find_path_conf first_match lookup_conf is_valid_path_name all_path_chars is_path_char
    any_dot_segment split_slash regexp_confs eqb_name
two_paths-Follows = (
  record { captured = bytes "a" ∷ []; falls_under = refl; named = refl },
  record { captured = []; falls_under = refl; named = refl },
)

do_reload_conf-Reloads_example :
    Reloads submatch sort_slice
      (confs 7 9)
      two_paths
      (do_reload_conf submatch sort_slice two_paths (confs 7 9))
do_reload_conf-Reloads_example =
    do_reload_conf-Reloads submatch sort_slice two_paths (confs 7 9) (confs-IsUsable 0 0)
      (confs-IsUsable 7 9) (two_paths-Follows.0, (two_paths-Follows.1, tt))

abbrev visits : List Event
visits = add_reader reader ∷ ask_close 1 ∷ handle 1 ∷ add_reader reader ∷ []

run-IsSound_example : Goes submatch sort_slice authenticate (
    run submatch sort_slice authenticate
      (start_sessions (confs 0 0))
      (add_reader reader ∷ reload_confs (confs 7 9) ∷ ask_close 1 ∷ []))
run-IsSound_example =
    run-IsSound submatch sort_slice authenticate (confs 0 0)
      (add_reader reader ∷ reload_confs (confs 7 9) ∷ ask_close 1 ∷ []) (confs-IsUsable 0 0)
      (tt, (confs-IsUsable 7 9, (tt, tt)))

abbrev after_visits : Sessions
after_visits = record {
  manager = record {
    path_confs = confs 0 0;
    hls_server = false;
    admin_store = none;
    paths =
        record {
          id = 1;
          name = bytes "ab";
          conf_name = bytes "~^a";
          sent_conf = any_conf 0 0;
          ready = false;
          pending = 1;
        }
        ∷ record {
          id = 0;
          name = bytes "cam";
          conf_name = bytes "cam";
          sent_conf = static_conf 0 0;
          ready = false;
          pending = 0;
        }
        ∷ [];
    next_id = 2;
  };
  in_flight = 1 ∷ [];
}

run-visits :
    run submatch sort_slice authenticate (start_sessions (confs 0 0)) visits ≡ some after_visits
unfolding run step do_add_reader hand_out create_path find_path delete_path add_pending drop_pending
    find_id close_path_if_idle count_of remove_one new_manager create_static find_path_conf
    first_match lookup_conf is_valid_path_name all_path_chars is_path_char any_dot_segment
    split_slash regexp_confs eqb_name
run-visits = refl
