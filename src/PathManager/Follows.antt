-- ===== src/PathManager/Follows.antt =====
-- internal/core/path_manager.go: after a reload every path has the configuration that its name falls
-- under.
use ppmmx.Base.{
  ℕ, ◌≡◌, refl, ap, sym, subst, Bool, Option, some, List, [], ◌∷◌, Bool-cases, inl, inr, All,
}
use ppmmx.PathConf.{
  Name, eqb_name, PathConf, Confs, lookup_conf, regexp_confs, less_conf, Found, found, invalid_name,
  not_configured, find_path_conf,
}
use ppmmx.PathConf.Find.{IsSorting}
use ppmmx.PathManager.{Managed, close, reload, eqb_conf, path_conf_can_be_updated}
use ppmmx.PathManager.Reload.{
  change_between, Verdict, keep, close_it, no_old_conf, reload_it, by_old_conf, by_change,
  verdict_of, Reloaded, add_left, add_closed, apply_verdict, reload_paths,
}
use ppmmx.PathConf.Find.{eqb_name_eq}
use ppmmx.PathManager.Updates.{eqb_conf_eq, IsKeyed, find_path_conf-lookup}

module _ (submatch : ℕ → Name → Option (List Name))
    (sort_slice : (PathConf → PathConf → Bool) → List PathConf → List PathConf) where
  abbrev pub conf_of_name : Confs → Name → Found
  conf_of_name confs name = find_path_conf submatch sort_slice confs name

  -- The path has been sent the configuration that its name falls under.
  pub record Follows (confs : Confs) (p : Managed) : Type 0 where
    pub captured : List Name
    pub falls_under : conf_of_name confs p.name ≡ found p.sent_conf captured
    pub named : p.sent_conf.name ≡ p.conf_name

  -- Maps of configurations that validation gives, and that sort.Slice sorts.
  pub record IsUsable (confs : Confs) : Type 0 where
    pub keyed : IsKeyed confs
    pub sorted : IsSorting (regexp_confs confs) (sort_slice less_conf (regexp_confs confs))

  -- What a verdict leaves of a path follows the new configurations.
  abbrev pub Leaves : Confs → Managed → Verdict → Type 0
  Leaves confs p keep = Follows confs p
  Leaves confs p close_it = Unit {0}
  Leaves confs p no_old_conf = ⊥
  Leaves confs p (reload_it new) =
      Follows confs (record p { conf_name = new.name; sent_conf = new })

  reloaded-Follows :
      (confs : Confs) (p : Managed) (new : PathConf) (m : List Name)
      → conf_of_name confs p.name ≡ found new m
      → Follows confs (record p { conf_name = new.name; sent_conf = new })
  reloaded-Follows confs p new m g = record { captured = m; falls_under = g; named = refl }

  by_change-Leaves :
      (confs : Confs) (p : Managed) (new : PathConf) (m : List Name)
      → conf_of_name confs p.name ≡ found new m
      → p.sent_conf.name ≡ p.conf_name
      → Leaves confs p (by_change (change_between (some p.sent_conf) (some new)) new)
  by_change-Leaves confs p new m g named = elim (Bool-cases (eqb_conf new p.sent_conf)) [
    | inl same ↦ rw same (record {
      captured = m;
      falls_under =
          subst (λ (c : PathConf). conf_of_name confs p.name ≡ found c m)
            (eqb_conf_eq new p.sent_conf same) g;
      named = named;
    })
    | inr other ↦ rw other (elim (Bool-cases (path_conf_can_be_updated p.sent_conf new)) [
      | inl updatable ↦ rw updatable (reloaded-Follows confs p new m g)
      | inr fixed ↦ rw fixed tt
    ])
  ]

  by_old_conf-Leaves :
      (confs : Confs) (p : Managed) (new : PathConf) (m : List Name)
      → conf_of_name confs p.name ≡ found new m
      → Leaves confs p (by_old_conf (some p.sent_conf) new)
  by_old_conf-Leaves confs p new m g =
      elim (Bool-cases (path_conf_can_be_updated p.sent_conf new)) [
        | inl updatable ↦ rw updatable (reloaded-Follows confs p new m g)
        | inr fixed ↦ rw fixed tt
      ]

  module _ {old : Confs} {confs : Confs} (u : IsUsable old) (v : IsUsable confs) where
    verdict_of-Leaves :
        (p : Managed)
        → Follows old p
        → (f : Found) → conf_of_name confs p.name ≡ f
        → Leaves confs p (verdict_of old confs p f)
    unfolding verdict_of
    verdict_of-Leaves p h (invalid_name e) g = tt
    verdict_of-Leaves p h not_configured g = tt
    verdict_of-Leaves p h (found new m) g =
        let old_there =
          find_path_conf-lookup submatch sort_slice old p.name p.sent_conf h.captured u.keyed
            u.sorted h.falls_under in
        let new_there =
          find_path_conf-lookup submatch sort_slice confs p.name new m v.keyed v.sorted g in
        let sent_there : lookup_conf p.conf_name old ≡ some p.sent_conf =
          subst (λ (n : Name). lookup_conf n old ≡ some p.sent_conf) h.named old_there in
        elim (Bool-cases (eqb_name new.name p.conf_name)) [
          | inl same ↦
              let before : lookup_conf new.name old ≡ some p.sent_conf =
                subst (λ (n : Name). lookup_conf n old ≡ some p.sent_conf)
                  (sym (eqb_name_eq new.name p.conf_name same)) sent_there in
              rw same (rw before (rw new_there (by_change-Leaves confs p new m g h.named)))
          | inr other ↦ rw other (rw sent_there (by_old_conf-Leaves confs p new m g))
        ]

    -- What a reload of the paths comes to.
    pub record AllFollow (o : Option Reloaded) : Type 0 where
      pub gives : Reloaded
      pub there : o ≡ some gives
      pub all_follow : All (Follows confs) gives.left

    apply_verdict-AllFollow :
        (p : Managed) (w : Verdict) (rest : Option Reloaded)
        → Leaves confs p w
        → AllFollow rest
        → AllFollow (apply_verdict p w rest)
    apply_verdict-AllFollow p keep rest l r = record {
      gives = record { left = p ∷ r.gives.left; calls = r.gives.calls };
      there = ap (add_left p []) r.there;
      all_follow = (l, r.all_follow);
    }
    apply_verdict-AllFollow p close_it rest l r = record {
      gives = record r.gives { calls = close p.id ∷ r.gives.calls };
      there = ap (add_closed p.id) r.there;
      all_follow = r.all_follow;
    }
    apply_verdict-AllFollow p no_old_conf rest l r = absurd l
    apply_verdict-AllFollow p (reload_it new) rest l r = record {
      gives = record {
        left = record p { conf_name = new.name; sent_conf = new } ∷ r.gives.left;
        calls = reload p.id new ∷ r.gives.calls;
      };
      there =
          ap (add_left (record p { conf_name = new.name; sent_conf = new }) (reload p.id new ∷ []))
            r.there;
      all_follow = (l, r.all_follow);
    }

    pub reload_paths-AllFollow :
        (ps : List Managed)
        → All (Follows old) ps
        → AllFollow (reload_paths submatch sort_slice old confs ps)
    unfolding reload_paths
    reload_paths-AllFollow [] h = record {
      gives = record { left = []; calls = [] };
      there = refl;
      all_follow = tt;
    }
    reload_paths-AllFollow (p ∷ ps) (h, hs) =
        apply_verdict-AllFollow p (verdict_of old confs p (conf_of_name confs p.name)) _
          (verdict_of-Leaves p h (conf_of_name confs p.name) refl) (reload_paths-AllFollow ps hs)
