-- ===== src/PathManager/Sent.antt =====
-- internal/core/path_manager.go: every path has been sent the configuration that it falls under.
use ppmmx.Base.{
  ℕ, ◌≡◌, refl, ap, sym, ◌∙◌, Bool, true, false, Option, none, some, List, [], ◌∷◌, ◌==◌,
  if◌then◌else◌, Bool-cases, inl, inr, All,
}
use ppmmx.PathConf.{Name, PathConf, Confs, found}
use ppmmx.PathManager.{
  Managed, Manager, Call, find_path, create_path, add_pending, drop_pending, set_ready, close_idle,
  do_close_path, made, give, hand_out,
}
use ppmmx.PathManager.Follows.{Follows, conf_of_name}
use ppmmx.PathManager.Balance.{delete_path-All}

module _ (submatch : ℕ → Name → Option (List Name))
    (sort_slice : (PathConf → PathConf → Bool) → List PathConf → List PathConf) where
  abbrev pub AllSent : Confs → List Managed → Type 0
  AllSent confs ps = All (Follows submatch sort_slice confs) ps

  -- A change of other fields.
  same_conf :
      (confs : Confs) (b : Bool) (p q : Managed)
      → q.name ≡ p.name
      → q.sent_conf ≡ p.sent_conf
      → q.conf_name ≡ p.conf_name
      → Follows submatch sort_slice confs p
      → Follows submatch sort_slice confs (if b then q else p)
  same_conf confs true p q e f g h = record {
    captured = h.captured;
    falls_under =
        ap (conf_of_name submatch sort_slice confs) e
        ∙ h.falls_under
        ∙ ap (λ (c : PathConf). found c h.captured) (sym f);
    named = ap (λ (c : PathConf). c.name) f ∙ h.named ∙ sym g;
  }
  same_conf confs false p q e f g h = h

  add_pending-AllSent :
      (confs : Confs) (id : ℕ) (ps : List Managed)
      → AllSent confs ps
      → AllSent confs (add_pending id ps)
  unfolding add_pending
  add_pending-AllSent confs id [] h = tt
  add_pending-AllSent confs id (p ∷ ps) (h, hs) =
      (same_conf confs (p.id == id) p _ refl refl refl h, add_pending-AllSent confs id ps hs)

  pub drop_pending-AllSent :
      (confs : Confs) (id : ℕ) (ps : List Managed)
      → AllSent confs ps
      → AllSent confs (drop_pending id ps)
  unfolding drop_pending
  drop_pending-AllSent confs id [] h = tt
  drop_pending-AllSent confs id (p ∷ ps) (h, hs) =
      (same_conf confs (p.id == id) p _ refl refl refl h, drop_pending-AllSent confs id ps hs)

  pub set_ready-AllSent :
      (confs : Confs) (ready : Bool) (id : ℕ) (ps : List Managed)
      → AllSent confs ps
      → AllSent confs (set_ready ready id ps)
  unfolding set_ready
  set_ready-AllSent confs ready id [] h = tt
  set_ready-AllSent confs ready id (p ∷ ps) (h, hs) =
      (same_conf confs (p.id == id) p _ refl refl refl h, set_ready-AllSent confs ready id ps hs)

  -- The configurations stay, and every path has been sent its own.
  pub record Sent (confs : Confs) (m : Manager) : Type 0 where
    pub confs_there : m.path_confs ≡ confs
    pub sent : AllSent confs m.paths

  create_path-Sent :
      (confs : Confs) (m : Manager) (c : PathConf) (name : Name) (matches : List Name)
      → conf_of_name submatch sort_slice confs name ≡ found c matches
      → Sent confs m
      → Sent confs (create_path m c name matches).0
  unfolding create_path
  create_path-Sent confs m c name matches e s = record {
    confs_there = s.confs_there;
    sent = (
      record { captured = matches; falls_under = e; named = refl },
      delete_path-All (Follows submatch sort_slice confs) name m.paths s.sent,
    );
  }

  made-Sent :
      (confs : Confs) (m : Manager) (c : PathConf) (name : Name) (matches : List Name)
      (o : Option Managed)
      → conf_of_name submatch sort_slice confs name ≡ found c matches
      → Sent confs m
      → Sent confs (made m c name matches o).0
  made-Sent confs m c name matches none e s = create_path-Sent confs m c name matches e s
  made-Sent confs m c name matches (some p) e s = s

  give-Sent :
      (confs : Confs) (m : Manager) (calls : List Call) (o : Option Managed) (user : Option ℕ)
      → Sent confs m
      → Sent confs (give m calls o user).manager
  give-Sent confs m calls none user s = s
  give-Sent confs m calls (some p) user s = record {
    confs_there = s.confs_there;
    sent = add_pending-AllSent confs p.id m.paths s.sent;
  }

  pub hand_out-Sent :
      (confs : Confs) (m : Manager) (c : PathConf) (matches : List Name) (name : Name)
      (user : Option ℕ)
      → conf_of_name submatch sort_slice confs name ≡ found c matches
      → Sent confs m
      → Sent confs (hand_out m c matches name user).manager
  unfolding hand_out
  hand_out-Sent confs m c matches name user e s =
      let now = made m c name matches (find_path name m.paths) in
      give-Sent confs now.0 now.1 (find_path name now.0.paths) user
        (made-Sent confs m c name matches (find_path name m.paths) e s)

  pub close_idle-Sent :
      (confs : Confs) (m : Manager) (o : Option Managed)
      → Sent confs m
      → Sent confs (close_idle m o).0
  unfolding do_close_path
  close_idle-Sent confs m none s = s
  close_idle-Sent confs m (some p) s = elim (Bool-cases (p.pending == 0)) [
    | inl idle ↦ rw idle (record {
      confs_there = s.confs_there;
      sent = delete_path-All (Follows submatch sort_slice confs) p.name m.paths s.sent;
    })
    | inr busy ↦ rw busy s
  ]
