-- ===== src/PathManager/Statics.antt =====
-- internal/core/path_manager.go: the paths that are created for the static configurations, and a
-- reload as a whole.
use ppmmx.Base.{
  ℕ, ◌≡◌, refl, ap, sym, subst, Bool, false, Option, none, some, List, [], ◌∷◌, ◌++◌, if◌then◌else◌,
  Bool-cases, inl, inr, All,
}
use ppmmx.PathConf.{Name, eqb_name, PathConf, Confs, lookup_conf, find_path_conf}
use ppmmx.PathManager.{Managed, Manager, Call, find_path, delete_path, create_path}
use ppmmx.PathManager.Reload.{
  Reloaded, reload_paths, with_static, create_static, then_static, do_reload_conf, new_manager,
}
use ppmmx.PathConf.Find.{eqb_name_eq, eqb_name_refl}
use ppmmx.PathManager.Updates.{IsKeyed}
use ppmmx.PathManager.Follows.{Follows, IsUsable, reload_paths-AllFollow}

abbrev pub Has : Option Managed → Type 0
Has none = ⊥
Has (some p) = Unit {0}

find_path-delete :
    (name key : Name) (ps : List Managed)
    → eqb_name name key ≡ false
    → find_path key (delete_path name ps) ≡ find_path key ps
unfolding find_path delete_path
find_path-delete name key [] h = refl
find_path-delete name key (p ∷ ps) h =
    let rest = find_path-delete name key ps h in
    elim (Bool-cases (eqb_name p.name name)) [
      | inl gone ↦
          let not_key : eqb_name p.name key ≡ false =
            subst (λ (n : Name). eqb_name n key ≡ false) (sym (eqb_name_eq p.name name gone)) h in
          rw gone (rw not_key rest)
      | inr stays ↦ rw stays (if_same (eqb_name p.name key) p _ _ rest)
    ]
  where
    if_same :
        (b : Bool) (p : Managed) (x y : Option Managed)
        → x ≡ y
        → (if b then some p else x) ≡ (if b then some p else y)
    if_same b p x y e = rw e refl

create_path-Has_self :
    (m : Manager) (c : PathConf) (name : Name)
    → Has (find_path name (create_path m c name []).0.paths)
unfolding find_path create_path
create_path-Has_self m c name = rw (eqb_name_refl name) tt

create_path-Has :
    (m : Manager) (c : PathConf) (name key : Name)
    → Has (find_path key m.paths)
    → Has (find_path key (create_path m c name []).0.paths)
unfolding find_path create_path
create_path-Has m c name key h = elim (Bool-cases (eqb_name name key)) [
  | inl same ↦ rw same tt
  | inr other ↦ rw other (subst Has (sym (find_path-delete name key m.paths other)) h)
]

-- A static configuration has its path.
abbrev pub Covered : Option ℕ → Option Managed → Type 0
Covered none there = Has there
Covered (some r) there = Unit {0}

All-delete :
    (P : Managed → Type 0) (name : Name) (ps : List Managed)
    → All P ps
    → All P (delete_path name ps)
unfolding delete_path
All-delete P name [] h = tt
All-delete P name (p ∷ ps) (h, hs) = elim (Bool-cases (eqb_name p.name name)) [
  | inl gone ↦ rw gone (All-delete P name ps hs)
  | inr stays ↦ rw stays (h, All-delete P name ps hs)
]

entries_found :
    (confs : Confs)
    → IsKeyed confs
    → All (λ (e : Name × PathConf). lookup_conf e.0 confs ≡ some e.1) confs
unfolding lookup_conf
entries_found [] k = tt
entries_found ((key, c) ∷ cs) (same, fresh, k) =
    (rw (eqb_name_refl key) refl, behind cs (entries_found cs k))
  where
    behind :
        (es : Confs)
        → All (λ (e : Name × PathConf). lookup_conf e.0 cs ≡ some e.1) es
        → All (λ (e : Name × PathConf). lookup_conf e.0 ((key, c) ∷ cs) ≡ some e.1) es
    behind [] h = tt
    behind ((n, d) ∷ es) (h, hs) = (ahead n d h, behind es hs)
      where
        clash : {n : Name} {d : PathConf} → key ≡ n → lookup_conf n cs ≡ some d → ⊥
        clash e g = cc

        ahead :
            (n : Name) (d : PathConf)
            → lookup_conf n cs ≡ some d
            → lookup_conf n ((key, c) ∷ cs) ≡ some d
        ahead n d e = elim (Bool-cases (eqb_name key n)) [
          | inl here ↦ absurd (clash (eqb_name_eq key n here) e)
          | inr other ↦ rw other e
        ]

module _ (submatch : ℕ → Name → Option (List Name))
    (sort_slice : (PathConf → PathConf → Bool) → List PathConf → List PathConf)
    (confs : Confs) where
  -- The manager has these configurations, and every path follows them.
  pub record InForce (m : Manager) : Type 0 where
    pub confs_there : m.path_confs ≡ confs
    pub all_follow : All (Follows submatch sort_slice confs) m.paths

  abbrev StaticsDone : Confs → Manager → Type 0
  StaticsDone cs m = All (λ (e : Name × PathConf). Covered e.1.regexp (find_path e.0 m.paths)) cs

  record Goes (cs : Confs) (m m' : Manager) : Type 0 where
    in_force : InForce m'
    covered : StaticsDone cs m'
    keeps : (name : Name) → Has (find_path name m.paths) → Has (find_path name m'.paths)

  abbrev IsEntry : Name × PathConf → Type 0
  IsEntry e = lookup_conf e.0 confs ≡ some e.1

  create_path-InForce :
      (m : Manager) (c : PathConf) (key : Name)
      → IsEntry (key, c)
      → InForce m
      → InForce (create_path m c key []).0
  unfolding create_path find_path_conf
  create_path-InForce m c key e h = record {
    confs_there = h.confs_there;
    all_follow = (
      record { captured = []; falls_under = rw e refl; named = refl },
      All-delete (Follows submatch sort_slice confs) key m.paths h.all_follow,
    );
  }

  with_static-Goes :
      (r : Option ℕ) (o : Option Managed) (m : Manager) (c : PathConf) (key : Name)
      → o ≡ find_path key m.paths
      → IsEntry (key, c)
      → InForce m
      → InForce (with_static r o m c key).0
        × Covered r (find_path key (with_static r o m c key).0.paths)
        × ((name : Name)
            → Has (find_path name m.paths)
            → Has (find_path name (with_static r o m c key).0.paths))
  with_static-Goes none none m c key e i h = (
    create_path-InForce m c key i h,
    create_path-Has_self m c key,
    λ name k. create_path-Has m c key name k,
  )
  with_static-Goes none (some p) m c key e i h = (h, subst Has e tt, λ name k. k)
  with_static-Goes (some r) o m c key e i h = (h, tt, λ name k. k)

  Covered-keeps :
      (r : Option ℕ) (o o' : Option Managed) → (Has o → Has o') → Covered r o → Covered r o'
  Covered-keeps none o o' f h = f h
  Covered-keeps (some r) o o' f h = tt

  create_static-Goes :
      (cs : Confs) (m : Manager) → All IsEntry cs → InForce m → Goes cs m (create_static cs m).0
  unfolding create_static
  create_static-Goes [] m e h = record { in_force = h; covered = tt; keeps = λ name k. k }
  create_static-Goes ((key, c) ∷ cs) m (e, es) h =
      let (now, covered, keeps) =
        with_static-Goes c.regexp (find_path key m.paths) m c key refl e h in
      let rest =
        create_static-Goes cs (with_static c.regexp (find_path key m.paths) m c key).0 es now in
      record {
        in_force = rest.in_force;
        covered = (Covered-keeps c.regexp _ _ (rest.keeps key) covered, rest.covered);
        keeps = λ name k. rest.keeps name (keeps name k);
      }

  -- The manager after `new_manager` or a reload.
  pub record IsCurrent (m : Manager) : Type 0 where
    pub in_force : InForce m
    pub statics : All (λ (e : Name × PathConf). Covered e.1.regexp (find_path e.0 m.paths)) confs

  create_static-IsCurrent :
      (m : Manager) → IsKeyed confs → InForce m → IsCurrent (create_static confs m).0
  create_static-IsCurrent m k h =
      let goes = create_static-Goes confs m (entries_found confs k) h in
      record { in_force = goes.in_force; statics = goes.covered }

  pub new_manager-IsCurrent : IsKeyed confs → IsCurrent (new_manager confs).0
  unfolding new_manager
  new_manager-IsCurrent k =
      create_static-IsCurrent _ k (record { confs_there = refl; all_follow = tt })

  -- A reload ends, without reading through a nil pointer.
  pub record Reloads (m : Manager) (o : Option (Manager × List Call)) : Type 0 where
    pub left : Reloaded
    pub left_there : reload_paths submatch sort_slice m.path_confs confs m.paths ≡ some left
    pub after : Manager
    pub calls : List Call
    pub there : o ≡ some (after, calls)
    pub after_is :
        after ≡ (create_static confs (record m { path_confs = confs; paths = left.left })).0
    pub current : IsCurrent after

module _ (submatch : ℕ → Name → Option (List Name))
    (sort_slice : (PathConf → PathConf → Bool) → List PathConf → List PathConf) where
  -- A reload of a manager whose paths all follow its configurations does not read through a nil pointer.
  -- After it every path that is left has been sent, when it was made or by its last reload, the
  -- configuration that `FindPathConf` gives for its name among the new ones, its configuration's
  -- name is that one's, and every static configuration has a path. Both maps have each configuration
  -- under its name, and sort.Slice sorts their regular expressions.
  pub do_reload_conf-Reloads :
      (m : Manager) (confs : Confs)
      → IsUsable submatch sort_slice m.path_confs
      → IsUsable submatch sort_slice confs
      → All (Follows submatch sort_slice m.path_confs) m.paths
      → Reloads submatch sort_slice confs m (do_reload_conf submatch sort_slice m confs)
  unfolding do_reload_conf
  do_reload_conf-Reloads m confs u v h =
      let r = reload_paths-AllFollow submatch sort_slice u v m.paths h in
      let m' : Manager = record m { path_confs = confs; paths = r.gives.left } in
      record {
        left = r.gives;
        left_there = r.there;
        after_is = refl;
        after = (create_static confs m').0;
        calls = r.gives.calls ++ (create_static confs m').1;
        there = ap (then_static m confs) r.there;
        current =
            create_static-IsCurrent submatch sort_slice confs m' v.keyed
              (record { confs_there = refl; all_follow = r.all_follow });
      }
