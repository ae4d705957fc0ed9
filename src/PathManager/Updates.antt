-- ===== src/PathManager/Updates.antt =====
-- internal/core/path_manager.go: equal configurations, and the entries of the map of them.
use ppmmx.Base.{
  ℕ, ◌≡◌, refl, ap, sym, subst, ◌∙◌, Bool, true, Option, none, some, List, [], ◌∷◌, ◌==◌, arith,
  Bool-cases, ◌⊎◌, inl, inr,
}
use ppmmx.PathConf.{
  Name, eqb_name, PathConf, Confs, lookup_conf, regexp_confs, and_conf, less_conf, NameError, Found,
  found, is_valid_path_name, find_path_conf,
}
use ppmmx.PathConf.Find.{
  Among, IsSorting, Chosen, find_path_conf-Chosen, eqb_name_eq, eqb_name_refl,
}
use ppmmx.PathManager.{eqb_regexp, eqb_conf, path_conf_can_be_updated}

eqb_regexp_eq : (a b : Option ℕ) → eqb_regexp a b ≡ true → a ≡ b
unfolding eqb_regexp
eqb_regexp_eq none none h = refl
eqb_regexp_eq none (some s) h = cc
eqb_regexp_eq (some r) none h = cc
eqb_regexp_eq (some r) (some s) h = ground arith

eqb_regexp_refl : (a : Option ℕ) → eqb_regexp a a ≡ true
unfolding eqb_regexp
eqb_regexp_refl none = refl
eqb_regexp_refl (some r) = ground arith

pub eqb_conf_eq : (c d : PathConf) → eqb_conf c d ≡ true → c ≡ d
unfolding eqb_conf
eqb_conf_eq c d h = ground (arith, eqb_name_eq c.name d.name, eqb_regexp_eq c.regexp d.regexp)

-- What decides whether a path can go on with another configuration.
pub can_be_updated-fixed :
    (old new : PathConf) → path_conf_can_be_updated old new ≡ (new.fixed == old.fixed)
unfolding path_conf_can_be_updated eqb_conf
can_be_updated-fixed old new = ground (arith, eqb_name_refl new.name, eqb_regexp_refl new.regexp)

-- Each entry has the name of its configuration for its key, and no key is there twice.
abbrev pub IsKeyed : Confs → Type 0
IsKeyed [] = Unit {0}
IsKeyed ((key, c) ∷ cs) = (key ≡ c.name) × (lookup_conf key cs ≡ none) × IsKeyed cs

pub lookup_conf-name :
    (name : Name) (confs : Confs) (c : PathConf)
    → IsKeyed confs
    → lookup_conf name confs ≡ some c
    → c.name ≡ name
unfolding lookup_conf
lookup_conf-name name [] c k e = cc
lookup_conf-name name ((key, d) ∷ cs) c (same, fresh, k) e = elim (Bool-cases (eqb_name key name)) [
  | inl here ↦
      let found_here = rw here at e in
      let key_name = eqb_name_eq key name here in ground (arith, same, key_name, found_here)
  | inr there ↦ lookup_conf-name name cs c k (rw there at e)
]

Among-or :
    (c d : PathConf) (o : Option ℕ) (cs : List PathConf)
    → Among c (and_conf o d cs)
    → (c ≡ d) ⊎ Among c cs
Among-or c d none cs a = inr a
Among-or c d (some r) cs a = a

pub regexp_conf-lookup :
    (c : PathConf) (confs : Confs)
    → IsKeyed confs
    → Among c (regexp_confs confs)
    → lookup_conf c.name confs ≡ some c
unfolding regexp_confs lookup_conf
regexp_conf-lookup c [] k a = absurd a
regexp_conf-lookup c ((key, d) ∷ cs) (same, fresh, k) a =
    elim (Among-or c d d.regexp (regexp_confs cs) a) [
      | inl e ↦
          let here : eqb_name key c.name ≡ true =
            subst (λ (n : Name). eqb_name key n ≡ true)
              (same ∙ ap (λ (x : PathConf). x.name) (sym e)) (eqb_name_refl key) in
          rw here (ap some (sym e))
      | inr there ↦
          let rest = regexp_conf-lookup c cs k there in
          elim (Bool-cases (eqb_name key c.name)) [
            | inl here ↦ absurd (twice key c.name cs c (eqb_name_eq key c.name here) fresh rest)
            | inr other ↦ rw other rest
          ]
    ]
  where
    twice :
        (a b : Name) (cs : Confs) (c : PathConf)
        → a ≡ b
        → lookup_conf a cs ≡ none
        → lookup_conf b cs ≡ some c
        → ⊥
    twice a b cs c e f g = cc

-- What `FindPathConf` finds is in the map, under its name.
pub find_path_conf-lookup :
    (submatch : ℕ → Name → Option (List Name))
    (sort_slice : (PathConf → PathConf → Bool) → List PathConf → List PathConf) (confs : Confs)
    (name : Name) (c : PathConf) (m : List Name)
    → IsKeyed confs
    → IsSorting (regexp_confs confs) (sort_slice less_conf (regexp_confs confs))
    → find_path_conf submatch sort_slice confs name ≡ found c m
    → lookup_conf c.name confs ≡ some c
find_path_conf-lookup submatch sort_slice confs name c m k s e =
    by_choice (lookup_conf name confs) refl (is_valid_path_name name) (
      subst
        (λ (f : Found).
          Chosen submatch confs name (lookup_conf name confs) (is_valid_path_name name) f)
        e (find_path_conf-Chosen submatch sort_slice confs name s))
  where
    by_choice :
        (o : Option PathConf)
        → lookup_conf name confs ≡ o
        → (v : Option NameError) → Chosen submatch confs name o v (found c m)
        → lookup_conf c.name confs ≡ some c
    by_choice (some d) there v h =
        let same : c ≡ d = cc in
        let named = lookup_conf-name name confs d k there in
        subst (λ (x : PathConf). lookup_conf x.name confs ≡ some x) (sym same)
          (ap (λ (n : Name). lookup_conf n confs) named ∙ there)
    by_choice none missing (some x) h = cc
    by_choice none missing none (among, captures, least) = regexp_conf-lookup c confs k among
