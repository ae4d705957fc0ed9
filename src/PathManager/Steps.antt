-- ===== src/PathManager/Steps.antt =====
-- internal/core/path_manager.go: every step keeps the manager sound.
use ppmmx.Base.{
  ℕ, ◌≡◌, ◌<◌, refl, ap, sym, subst, ◌∙◌, Bool, true, false, Option, none, some, List, [], ◌∷◌,
  if◌then◌else◌, ltb, arith, All,
}
use ppmmx.PathConf.{Name, PathConf, Confs, found, find_path_conf}
use ppmmx.PathManager.{
  Managed, Manager, Access, Refusal, Handled, drop_pending, find_id, delete_id, set_ready,
  close_idle, close_path_if_idle, do_set_path_ready, do_set_path_not_ready, hand_out, do_add_reader,
  do_add_publisher, refuse,
}
use ppmmx.PathManager.Reload.{reload_paths, do_reload_conf}
use ppmmx.PathManager.Sessions.{
  Sessions, count_of, remove_one, Event, describe, add_reader, add_publisher, handle, give_up,
  ask_close, removed, set_ready as ready_event, set_not_ready, set_hls_server, set_admin_store,
  reload_confs, handed, with_manager, after_reload, ended, step, after_step, run,
}
use ppmmx.PathManager.Follows.{Follows, IsUsable}
use ppmmx.PathManager.Counts.{IsOld, All-remove_one}
use ppmmx.PathManager.Statics.{do_reload_conf-Reloads}
use ppmmx.PathManager.Balance.{
  Fits, Balanced, IsFair, hand_out-IsFair, drop_pending-All, set_ready-All, give_up-All,
  close_idle-Balanced, LeftFit, apply_verdict-LeftFit, create_static-Balanced, delete_id-All,
}
use ppmmx.PathManager.Handlers.{do_add_reader-Holds, do_add_publisher-Holds}
use ppmmx.PathManager.Sent.{
  AllSent, Sent, drop_pending-AllSent, set_ready-AllSent, hand_out-Sent, close_idle-Sent,
}

module _ (submatch : ℕ → Name → Option (List Name))
    (sort_slice : (PathConf → PathConf → Bool) → List PathConf → List PathConf)
    (authenticate : ℕ → Option ℕ) where
  -- What holds before and after each step.
  pub record IsSound (s : Sessions) : Type 0 where
    pub confs : Confs
    pub usable : IsUsable submatch sort_slice confs
    pub sent : Sent submatch sort_slice confs s.manager
    pub balanced : Balanced s.manager s.in_flight

  -- A step is taken, to such a state.
  pub record Goes (o : Option Sessions) : Type 0 where
    pub after : Sessions
    pub there : o ≡ some after
    pub sound : IsSound after

  -- Only maps of configurations that validation gives are loaded.
  abbrev pub IsPossible : Event → Type 0
  IsPossible (reload_confs confs) = IsUsable submatch sort_slice confs
  IsPossible (describe a) = Unit {0}
  IsPossible (add_reader a) = Unit {0}
  IsPossible (add_publisher a c) = Unit {0}
  IsPossible (handle id) = Unit {0}
  IsPossible (give_up id) = Unit {0}
  IsPossible (ask_close id) = Unit {0}
  IsPossible (removed id) = Unit {0}
  IsPossible (ready_event id) = Unit {0}
  IsPossible (set_not_ready id) = Unit {0}
  IsPossible (set_hls_server there) = Unit {0}
  IsPossible (set_admin_store store) = Unit {0}

  reload_paths-LeftFit :
      (old confs : Confs) (n : ℕ) (xs : List ℕ) (ps : List Managed)
      → All (Fits n xs) ps
      → LeftFit n xs (reload_paths submatch sort_slice old confs ps)
  unfolding reload_paths
  reload_paths-LeftFit old confs n xs [] h = tt
  reload_paths-LeftFit old confs n xs (p ∷ ps) (h, hs) =
      apply_verdict-LeftFit n xs p _ _ h (reload_paths-LeftFit old confs n xs ps hs)

  -- The handlers that hand a path out.
  HandsOut : Sessions → Confs → Handled → Type 0
  HandsOut s confs h = Sent submatch sort_slice confs h.manager × IsFair s.in_flight h

  handed-Goes :
      (s : Sessions) (confs : Confs) (h : Handled)
      → IsUsable submatch sort_slice confs
      → HandsOut s confs h
      → Goes (some (handed s h))
  unfolding HandsOut
  handed-Goes s confs h u (sent, fair) = record {
    after = handed s h;
    there = refl;
    sound = record { confs = confs; usable = u; sent = sent; balanced = fair };
  }

  module _ (s : Sessions) (sound : IsSound s) where
    refused-HandsOut : (why : Refusal) → HandsOut s sound.confs (refuse s.manager why)
    unfolding HandsOut
    refused-HandsOut why = (sound.sent, sound.balanced)

    given-HandsOut :
        (a : Access) (c : PathConf) (matches : List Name) (user : Option ℕ)
        → find_path_conf submatch sort_slice s.manager.path_confs a.name ≡ found c matches
        → HandsOut s sound.confs (hand_out s.manager c matches a.name user)
    unfolding HandsOut
    given-HandsOut a c matches user e = (
      hand_out-Sent submatch sort_slice sound.confs s.manager c matches a.name user
          (subst (λ (cs : Confs). find_path_conf submatch sort_slice cs a.name ≡ found c matches)
            sound.sent.confs_there e)
          sound.sent,
      hand_out-IsFair s.manager c matches a.name user s.in_flight sound.balanced,
    )

    add_reader-Goes :
        (a : Access)
        → Goes (some (handed s (do_add_reader submatch sort_slice authenticate s.manager a)))
    add_reader-Goes a = handed-Goes s sound.confs _ sound.usable (
        do_add_reader-Holds (HandsOut s sound.confs) submatch sort_slice authenticate s.manager a
          refused-HandsOut (given-HandsOut a))

    add_publisher-Goes :
        (a : Access) (c : Option PathConf)
        → Goes (some (handed s (do_add_publisher submatch sort_slice authenticate s.manager a c)))
    add_publisher-Goes a c = handed-Goes s sound.confs _ sound.usable (
        do_add_publisher-Holds (HandsOut s sound.confs) submatch sort_slice authenticate s.manager a
          refused-HandsOut (given-HandsOut a) c)

    -- A step that changes the paths and the requests in flight only.
    paths-Goes :
        (ps : List Managed) (xs : List ℕ)
        → AllSent submatch sort_slice sound.confs ps
        → All (Fits s.manager.next_id xs) ps
        → All (IsOld s.manager.next_id) xs
        → Goes (some (record { manager = record s.manager { paths = ps }; in_flight = xs }))
    paths-Goes ps xs sent fits old = record {
      after = record { manager = record s.manager { paths = ps }; in_flight = xs };
      there = refl;
      sound = record {
        confs = sound.confs;
        usable = sound.usable;
        sent = record { confs_there = sound.sent.confs_there; sent = sent };
        balanced = record { fits = fits; old = old };
      };
    }

    stay-Goes : Goes (some s)
    stay-Goes = record { after = s; there = refl; sound = sound }

    ready-Goes :
        (ready : Bool) (id : ℕ)
        → Goes (
            some (with_manager s (record s.manager { paths = set_ready ready id s.manager.paths })))
    ready-Goes ready id =
        paths-Goes (set_ready ready id s.manager.paths) s.in_flight
          (set_ready-AllSent submatch sort_slice sound.confs ready id s.manager.paths
            sound.sent.sent)
          (set_ready-All s.manager.next_id ready id s.in_flight s.manager.paths sound.balanced.fits)
          sound.balanced.old

    -- Neither the configurations nor the paths change.
    setting-Goes :
        (m : Manager)
        → m.path_confs ≡ s.manager.path_confs
        → m.paths ≡ s.manager.paths
        → m.next_id ≡ s.manager.next_id
        → Goes (some (with_manager s m))
    setting-Goes m e f g = record {
      after = with_manager s m;
      there = refl;
      sound = record {
        confs = sound.confs;
        usable = sound.usable;
        sent = record {
          confs_there = e ∙ sound.sent.confs_there;
          sent = subst (AllSent submatch sort_slice sound.confs) (sym f) sound.sent.sent;
        };
        balanced = record {
          fits =
              subst (λ (ps : List Managed). All (Fits m.next_id s.in_flight) ps) (sym f)
                (subst (λ (n : ℕ). All (Fits n s.in_flight) s.manager.paths) (sym g)
                  sound.balanced.fits);
          old = subst (λ (n : ℕ). All (IsOld n) s.in_flight) (sym g) sound.balanced.old;
        };
      };
    }

    handle-Goes :
        (id : ℕ)
        → 0 < count_of id s.in_flight
        → Goes (
            some (record {
              manager = record s.manager { paths = drop_pending id s.manager.paths };
              in_flight = remove_one id s.in_flight;
            }))
    handle-Goes id h =
        paths-Goes (drop_pending id s.manager.paths) (remove_one id s.in_flight)
          (drop_pending-AllSent submatch sort_slice sound.confs id s.manager.paths sound.sent.sent)
          (drop_pending-All s.manager.next_id id s.in_flight s.manager.paths h sound.balanced.fits)
          (All-remove_one s.manager.next_id id s.in_flight sound.balanced.old)

    give_up-Goes :
        (id : ℕ) (o : Option Managed)
        → find_id id s.manager.paths ≡ o
        → Goes (some (record s { in_flight = ended o (remove_one id s.in_flight) s.in_flight }))
    give_up-Goes id none e =
        paths-Goes s.manager.paths (remove_one id s.in_flight) sound.sent.sent
          (give_up-All s.manager.next_id id s.in_flight s.manager.paths e sound.balanced.fits)
          (All-remove_one s.manager.next_id id s.in_flight sound.balanced.old)
    give_up-Goes id (some p) e = stay-Goes

    close-Goes : (id : ℕ) → Goes (some (with_manager s (close_path_if_idle s.manager id).0))
    unfolding close_path_if_idle
    close-Goes id =
        let o = find_id id s.manager.paths in
        record {
          after = with_manager s (close_idle s.manager o).0;
          there = refl;
          sound = record {
            confs = sound.confs;
            usable = sound.usable;
            sent = close_idle-Sent submatch sort_slice sound.confs s.manager o sound.sent;
            balanced = close_idle-Balanced s.manager o s.in_flight sound.balanced;
          };
        }

    reload-Goes :
        (confs : Confs)
        → IsUsable submatch sort_slice confs
        → Goes (after_reload s (do_reload_conf submatch sort_slice s.manager confs))
    reload-Goes confs v =
        let m = s.manager in
        let r =
          do_reload_conf-Reloads submatch sort_slice m confs
            (subst (IsUsable submatch sort_slice) (sym sound.sent.confs_there) sound.usable) v
            (subst (λ (cs : Confs). AllSent submatch sort_slice cs m.paths)
              (sym sound.sent.confs_there) sound.sent.sent) in
        let left_fit = subst (LeftFit m.next_id s.in_flight) r.left_there (
          reload_paths-LeftFit m.path_confs confs m.next_id s.in_flight m.paths
            sound.balanced.fits) in
        record {
          after = with_manager s r.after;
          there = ap (after_reload s) r.there;
          sound = record {
            confs = confs;
            usable = v;
            sent = record {
              confs_there = r.current.in_force.confs_there;
              sent = r.current.in_force.all_follow;
            };
            balanced =
                subst (λ (k : Manager). Balanced k s.in_flight) (sym r.after_is)
                  (create_static-Balanced confs
                    (record m { path_confs = confs; paths = r.left.left }) s.in_flight
                    (record { fits = left_fit; old = sound.balanced.old }));
          };
        }

  if-Goes :
      (b : Bool) (s t : Sessions)
      → (b ≡ true → Goes (some s))
      → (b ≡ false → Goes (some t))
      → Goes (some (if b then s else t))
  if-Goes true s t h k = h refl
  if-Goes false s t h k = k refl

  pub step-Goes :
      (s : Sessions) (e : Event)
      → IsPossible e
      → IsSound s
      → Goes (step submatch sort_slice authenticate s e)
  unfolding step do_set_path_ready do_set_path_not_ready
  step-Goes s (describe a) k h = add_reader-Goes s h a
  step-Goes s (add_reader a) k h = add_reader-Goes s h a
  step-Goes s (add_publisher a c) k h = add_publisher-Goes s h a c
  step-Goes s (handle id) k h =
      if-Goes (ltb 0 (count_of id s.in_flight)) _ _ (λ there. handle-Goes s h id (ground arith))
        (λ missing. stay-Goes s h)
  step-Goes s (give_up id) k h = give_up-Goes s h id (find_id id s.manager.paths) refl
  step-Goes s (ask_close id) k h = close-Goes s h id
  step-Goes s (removed id) k h =
      paths-Goes s h (delete_id id s.manager.paths) s.in_flight
        (delete_id-All (Follows submatch sort_slice h.confs) id s.manager.paths h.sent.sent)
        (delete_id-All (Fits s.manager.next_id s.in_flight) id s.manager.paths h.balanced.fits)
        h.balanced.old
  step-Goes s (ready_event id) k h = ready-Goes s h true id
  step-Goes s (set_not_ready id) k h = ready-Goes s h false id
  step-Goes s (set_hls_server there) k h = setting-Goes s h _ refl refl refl
  step-Goes s (set_admin_store store) k h = setting-Goes s h _ refl refl refl
  step-Goes s (reload_confs confs) k h = reload-Goes s h confs k

  pub run-Goes :
      (s : Sessions) (es : List Event)
      → All IsPossible es
      → IsSound s
      → Goes (run submatch sort_slice authenticate s es)
  unfolding run
  run-Goes s [] k h = stay-Goes s h
  run-Goes s (e ∷ es) (k, ks) h =
      let now = step-Goes s e k h in
      let rest = run-Goes now.after es ks now.sound in
      record {
        after = rest.after;
        there =
            ap
              (λ (o : Option Sessions).
                after_step o (λ (t : Sessions). run submatch sort_slice authenticate t es))
              now.there
            ∙ rest.there;
        sound = rest.sound;
      }
