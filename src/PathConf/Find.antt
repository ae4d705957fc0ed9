-- ===== src/PathConf/Find.antt =====
-- internal/conf/path.go: `FindPathConf` gives the first matching configuration of a fixed order.
use ppmmx.Base.{
  ℕ, ◌≡◌, refl, sym, ap, ◌∙◌, subst, Bool, true, false, ◌&&◌, ◌==◌, if◌then◌else◌, Bool-cases,
  Option, none, some, List, [], ◌∷◌, arith, ◌⊎◌, inl, inr, All,
}
use ppmmx.PathConf.{
  Name, eqb_name, is_catch_all, PathConf, Confs, NameError, is_valid_path_name, less_name,
  lookup_conf, regexp_confs, less_conf, Found, found, invalid_name, not_configured, conf_submatch,
  or_rest, first_match, unless_invalid, or_else_match, find_path_conf,
}

abbrev pub Among : PathConf → List PathConf → Type 0
Among c [] = ⊥
Among c (d ∷ ds) = (c ≡ d) ⊎ Among c ds

-- No configuration is less than one that stands before it.
abbrev pub Ordered : List PathConf → Type 0
Ordered [] = Unit {0}
Ordered (c ∷ cs) = All (λ (d : PathConf). less_conf d c ≡ false) cs × Ordered cs

-- What sort.Slice promises for a list: the same elements, in order.
pub record IsSorting (given sorted : List PathConf) : Type 0 where
  pub kept : (c : PathConf) → Among c given → Among c sorted
  pub no_other : (c : PathConf) → Among c sorted → Among c given
  pub ordered : Ordered sorted

All-Among :
    (P : PathConf → Type 0) (cs : List PathConf) → All P cs → (d : PathConf) → Among d cs → P d
All-Among P [] h d a = absurd a
All-Among P (c ∷ cs) (h, hs) d (inl e) = subst P (sym e) h
All-Among P (c ∷ cs) (h, hs) d (inr a) = All-Among P cs hs d a

Among-All :
    (P : PathConf → Type 0) (cs : List PathConf) → ((d : PathConf) → Among d cs → P d) → All P cs
Among-All P [] h = tt
Among-All P (c ∷ cs) h = (h c (inl refl), Among-All P cs (λ d a. h d (inr a)))

All-weaken :
    (P Q : PathConf → Type 0) (cs : List PathConf)
    → ((d : PathConf) → P d → Q d)
    → All P cs
    → All Q cs
All-weaken P Q [] f h = tt
All-weaken P Q (c ∷ cs) f (h, hs) = (f c h, All-weaken P Q cs f hs)

-- What holds of all elements holds of all that were given.
All-IsSorting :
    (P : PathConf → Type 0) (given sorted : List PathConf)
    → IsSorting given sorted
    → All P sorted
    → All P given
All-IsSorting P given sorted s h = Among-All P given (λ d a. All-Among P sorted h d (s.kept d a))

less_name_irrefl : (n : Name) → less_name n n ≡ false
unfolding less_name
less_name_irrefl [] = refl
less_name_irrefl (c ∷ cs) = ground (arith, less_name_irrefl cs)

less_conf_irrefl : (c : PathConf) → less_conf c c ≡ false
unfolding less_conf
less_conf_irrefl c = ground (arith, less_name_irrefl c.name)

abbrev all_name : Name
all_name = b'a' ∷ b'l' ∷ b'l' ∷ []

abbrev all_others_name : Name
all_others_name = b'a' ∷ b'l' ∷ b'l' ∷ b'_' ∷ b'o' ∷ b't' ∷ b'h' ∷ b'e' ∷ b'r' ∷ b's' ∷ []

abbrev pub HasCatchAllName : PathConf → Type 0
HasCatchAllName c = (c.name ≡ all_name) ⊎ (c.name ≡ all_others_name)

-- The order in which expressions are tried: those not named all or all_others first, by their names.
abbrev pub ComesBefore : PathConf → PathConf → Type 0
ComesBefore d c = (¬ HasCatchAllName d) × (HasCatchAllName c ⊎ (less_name d.name c.name ≡ true))

pub eqb_name_eq : (n m : Name) → eqb_name n m ≡ true → n ≡ m
unfolding eqb_name
eqb_name_eq [] [] h = refl
eqb_name_eq [] (y ∷ ys) h = cc
eqb_name_eq (x ∷ xs) [] h = cc
eqb_name_eq (x ∷ xs) (y ∷ ys) h =
    let same = heads x y (eqb_name xs ys) h in
    ap (λ (z : ℕ). z ∷ xs) same.0 ∙ ap (λ (zs : Name). y ∷ zs) (eqb_name_eq xs ys same.1)
  where
    heads : (a b : ℕ) (t : Bool) → (a == b && t) ≡ true → (a ≡ b) × (t ≡ true)
    heads a b t e = ground arith

pub eqb_name_refl : (n : Name) → eqb_name n n ≡ true
unfolding eqb_name
eqb_name_refl [] = refl
eqb_name_refl (c ∷ cs) = ground (arith, eqb_name_refl cs)

-- An expression that comes before another one is less than it.
ComesBefore-less_conf : (d c : PathConf) → less_conf d c ≡ false → ¬ ComesBefore d c
unfolding less_conf
ComesBefore-less_conf d c h (other, first) = cc (sym less ∙ h)
  where
    named : (n : Name) → is_catch_all n ≡ true → (n ≡ all_name) ⊎ (n ≡ all_others_name)
    named n e = elim (Bool-cases (eqb_name n all_name)) [
      | inl k ↦ inl (eqb_name_eq n all_name k)
      | inr k ↦ inr (eqb_name_eq n all_others_name (ground arith))
    ]

    not_named : is_catch_all d.name ≡ false
    not_named = elim (Bool-cases (is_catch_all d.name)) [
      | inl k ↦ absurd (other (named d.name k))
      | inr k ↦ k
    ]

    catches : (n : Name) → (n ≡ all_name) ⊎ (n ≡ all_others_name) → is_catch_all n ≡ true
    catches n (inl e) = rw e (ground (arith, eqb_name_refl all_name))
    catches n (inr e) = rw e (ground (arith, eqb_name_refl all_others_name))

    less : less_conf d c ≡ true
    less = rw not_named (by_name first)
      where
        by_name :
            HasCatchAllName c ⊎ (less_name d.name c.name ≡ true)
            → (if is_catch_all c.name then true else less_name d.name c.name) ≡ true
        by_name (inl k) = rw (catches c.name k) refl
        by_name (inr k) = ground arith

module _ (submatch : ℕ → Name → Option (List Name)) where
  abbrev pub Captures : Name → Option (List Name) → PathConf → Type 0
  Captures name m c = conf_submatch submatch c name ≡ m

  -- `d` does not come before `c`, or it does not match.
  abbrev pub Behind : Name → PathConf → PathConf → Type 0
  Behind name c d = ¬ ComesBefore d c ⊎ Captures name none d

  -- The answer for a list of expressions: the least one that matches.
  abbrev pub LeastOf : Name → List PathConf → Found → Type 0
  LeastOf name cs (found c m) = Among c cs × Captures name (some m) c × All (Behind name c) cs
  LeastOf name cs not_configured = All (Captures name none) cs
  LeastOf name cs (invalid_name e) = ⊥

  LeastOf-behind :
      (name : Name) (c : PathConf) (cs : List PathConf) (f : Found)
      → Captures name none c
      → LeastOf name cs f
      → LeastOf name (c ∷ cs) f
  LeastOf-behind name c cs not_configured e k = (e, k)
  LeastOf-behind name c cs (invalid_name x) e k = k
  LeastOf-behind name c cs (found b m) e (among, captures, least) =
      (inr among, captures, (inr e, least))

  first_match-LeastOf :
      (name : Name) (cs : List PathConf)
      → Ordered cs
      → LeastOf name cs (first_match submatch name cs)
  unfolding first_match
  first_match-LeastOf name [] h = tt
  first_match-LeastOf name (c ∷ cs) (h, hs) =
      by_capture (conf_submatch submatch c name) refl (first_match-LeastOf name cs hs)
    where
      by_capture :
          (o : Option (List Name))
          → Captures name o c
          → LeastOf name cs (first_match submatch name cs)
          → LeastOf name (c ∷ cs) (or_rest c o (first_match submatch name cs))
      by_capture none e k = LeastOf-behind name c cs (first_match submatch name cs) e k
      by_capture (some m) e k = (
        inl refl,
        e,
        (
          inl (ComesBefore-less_conf c c (less_conf_irrefl c)),
          All-weaken (λ d. less_conf d c ≡ false) (Behind name c) cs
              (λ d x. inl (ComesBefore-less_conf d c x)) h,
        ),
      )

  LeastOf-IsSorting :
      (name : Name) (given sorted : List PathConf) (f : Found)
      → IsSorting given sorted
      → LeastOf name sorted f
      → LeastOf name given f
  LeastOf-IsSorting name given sorted not_configured s k =
      All-IsSorting (Captures name none) given sorted s k
  LeastOf-IsSorting name given sorted (invalid_name e) s k = k
  LeastOf-IsSorting name given sorted (found c m) s (among, captures, least) =
      (s.no_other c among, captures, All-IsSorting (Behind name c) given sorted s least)

  -- The configuration of that very name; an error for an invalid name; the least match.
  abbrev pub Chosen : Confs → Name → Option PathConf → Option NameError → Found → Type 0
  Chosen confs name (some c) e f = f ≡ found c []
  Chosen confs name none (some e) f = f ≡ invalid_name e
  Chosen confs name none none f = LeastOf name (regexp_confs confs) f

  pub find_path_conf-Chosen :
      (sort_slice : (PathConf → PathConf → Bool) → List PathConf → List PathConf) (confs : Confs)
      (name : Name)
      → IsSorting (regexp_confs confs) (sort_slice less_conf (regexp_confs confs))
      → Chosen confs name
          (lookup_conf name confs)
          (is_valid_path_name name)
          (find_path_conf submatch sort_slice confs name)
  unfolding find_path_conf
  find_path_conf-Chosen sort_slice confs name s =
      by_cases (lookup_conf name confs) (is_valid_path_name name)
    where
      by_cases :
          (o : Option PathConf) (e : Option NameError)
          → Chosen confs name o e (
              or_else_match o (
                unless_invalid e
                  (first_match submatch name (sort_slice less_conf (regexp_confs confs)))))
      by_cases (some c) e = refl
      by_cases none (some e) = refl
      by_cases none none =
          LeastOf-IsSorting name (regexp_confs confs) (sort_slice less_conf (regexp_confs confs)) _
            s (first_match-LeastOf name (sort_slice less_conf (regexp_confs confs)) s.ordered)
