-- ===== src/PathManager/Balance.antt =====
-- internal/core/path_manager.go: the handlers keep the pending requests those in flight.
use ppmmx.Base.{
  ℕ, suc, ◌≡◌, ◌<◌, ◌≤◌, refl, sym, subst, Bool, true, false, Option, none, some, List, [], ◌∷◌,
  ◌==◌, if◌then◌else◌, arith, Bool-cases, inl, inr, All,
}
use ppmmx.PathConf.{Name, eqb_name, PathConf, Confs}
use ppmmx.PathManager.{
  Managed, Manager, Call, Handled, find_path, delete_path, create_path, add_pending, drop_pending,
  find_id, delete_id, set_ready, close_idle, do_close_path, made, give, hand_out,
}
use ppmmx.PathManager.Reload.{
  Verdict, keep, close_it, no_old_conf, reload_it, Reloaded, apply_verdict, with_static,
  create_static,
}
use ppmmx.PathManager.Sessions.{count_of, remove_one, new_in_flight}
use ppmmx.PathManager.Counts.{
  IsCounted, IsOld, count_of-new, All-IsOld, counted-add, counted-drop, counted-give_up,
}

-- What is kept of each path: how many requests are pending, and that its number was given out.
pub record Fits (n : ℕ) (xs : List ℕ) (p : Managed) : Type 0 where
  pub counted : IsCounted xs p
  pub old_id : IsOld n p.id

pub record Balanced (m : Manager) (xs : List ℕ) : Type 0 where
  pub fits : All (Fits m.next_id xs) m.paths
  pub old : All (IsOld m.next_id) xs

All-weaken :
    (P Q : Managed → Type 0) (ps : List Managed) → ((p : Managed) → P p → Q p) → All P ps → All Q ps
All-weaken P Q [] f h = tt
All-weaken P Q (p ∷ ps) f (h, hs) = (f p h, All-weaken P Q ps f hs)

module _ (P : Managed → Type 0) where
  pub delete_path-All : (name : Name) (ps : List Managed) → All P ps → All P (delete_path name ps)
  unfolding delete_path
  delete_path-All name [] h = tt
  delete_path-All name (p ∷ ps) (h, hs) = elim (Bool-cases (eqb_name p.name name)) [
    | inl gone ↦ rw gone (delete_path-All name ps hs)
    | inr stays ↦ rw stays (h, delete_path-All name ps hs)
  ]

  pub delete_id-All : (id : ℕ) (ps : List Managed) → All P ps → All P (delete_id id ps)
  unfolding delete_id
  delete_id-All id [] h = tt
  delete_id-All id (p ∷ ps) (h, hs) = elim (Bool-cases (p.id == id)) [
    | inl gone ↦ rw gone (delete_id-All id ps hs)
    | inr stays ↦ rw stays (h, delete_id-All id ps hs)
  ]

  pub find_path-All :
      (name : Name) (ps : List Managed) (p : Managed) → All P ps → find_path name ps ≡ some p → P p
  unfolding find_path
  find_path-All name [] p h e = cc
  find_path-All name (q ∷ ps) p (h, hs) e = elim (Bool-cases (eqb_name q.name name)) [
    | inl here ↦ subst P (some_inj (rw here at e)) h
    | inr other ↦ find_path-All name ps p hs (rw other at e)
  ]
    where
      some_inj : {a b : Managed} → some a ≡ some b → a ≡ b
      some_inj e = cc

Fits-weaken : (n n' : ℕ) (xs : List ℕ) (p : Managed) → n ≤ n' → Fits n xs p → Fits n' xs p
Fits-weaken n n' xs p h f =
    let old = f.old_id in record { counted = f.counted; old_id = omega arith }

create_path-Balanced :
    (m : Manager) (c : PathConf) (name : Name) (matches : List Name) (xs : List ℕ)
    → Balanced m xs
    → Balanced (create_path m c name matches).0 xs
unfolding create_path
create_path-Balanced m c name matches xs b = record {
  fits = (
    record { counted = sym (count_of-new m.next_id xs b.old); old_id = omega arith },
    All-weaken _ _ (delete_path name m.paths)
        (λ p f. Fits-weaken m.next_id (suc m.next_id) xs p (omega arith) f)
        (delete_path-All (Fits m.next_id xs) name m.paths b.fits),
  );
  old = All-IsOld m.next_id (suc m.next_id) xs (omega arith) b.old;
}

-- The manager and the requests in flight after an answer.
abbrev pub IsFair : List ℕ → Handled → Type 0
IsFair xs h = Balanced h.manager (new_in_flight h.reply xs)

IsOld-if :
    (n : ℕ) (b : Bool) (p q : Managed)
    → q.id ≡ p.id
    → IsOld n p.id
    → IsOld n (if b then q else p).id
IsOld-if n true p q e h = omega arith
IsOld-if n false p q e h = h

add_pending-All :
    (n id : ℕ) (xs : List ℕ) (ps : List Managed)
    → All (Fits n xs) ps
    → All (Fits n (id ∷ xs)) (add_pending id ps)
unfolding add_pending
add_pending-All n id xs [] h = tt
add_pending-All n id xs (p ∷ ps) (h, hs) = (
  record {
    counted = counted-add id xs p h.counted;
    old_id = IsOld-if n (p.id == id) p _ refl h.old_id;
  },
  add_pending-All n id xs ps hs,
)

give-IsFair :
    (m : Manager) (calls : List Call) (name : Name) (o : Option Managed) (user : Option ℕ)
    (xs : List ℕ)
    → find_path name m.paths ≡ o
    → Balanced m xs
    → IsFair xs (give m calls o user)
give-IsFair m calls name none user xs e b = b
give-IsFair m calls name (some p) user xs e b = record {
  fits = add_pending-All m.next_id p.id xs m.paths b.fits;
  old = ((find_path-All (Fits m.next_id xs) name m.paths p b.fits e).old_id, b.old);
}

made-Balanced :
    (m : Manager) (c : PathConf) (name : Name) (matches : List Name) (o : Option Managed)
    (xs : List ℕ)
    → Balanced m xs
    → Balanced (made m c name matches o).0 xs
made-Balanced m c name matches none xs b = create_path-Balanced m c name matches xs b
made-Balanced m c name matches (some p) xs b = b

pub hand_out-IsFair :
    (m : Manager) (c : PathConf) (matches : List Name) (name : Name) (user : Option ℕ) (xs : List ℕ)
    → Balanced m xs
    → IsFair xs (hand_out m c matches name user)
unfolding hand_out
hand_out-IsFair m c matches name user xs b =
    let now = made m c name matches (find_path name m.paths) in
    give-IsFair now.0 now.1 name (find_path name now.0.paths) user xs refl
      (made-Balanced m c name matches (find_path name m.paths) xs b)

pub drop_pending-All :
    (n id : ℕ) (xs : List ℕ) (ps : List Managed)
    → 0 < count_of id xs
    → All (Fits n xs) ps
    → All (Fits n (remove_one id xs)) (drop_pending id ps)
unfolding drop_pending
drop_pending-All n id xs [] k h = tt
drop_pending-All n id xs (p ∷ ps) k (h, hs) = (
  record {
    counted = counted-drop id xs p k h.counted;
    old_id = IsOld-if n (p.id == id) p _ refl h.old_id;
  },
  drop_pending-All n id xs ps k hs,
)

pub set_ready-All :
    (n : ℕ) (ready : Bool) (id : ℕ) (xs : List ℕ) (ps : List Managed)
    → All (Fits n xs) ps
    → All (Fits n xs) (set_ready ready id ps)
unfolding set_ready
set_ready-All n ready id xs [] h = tt
set_ready-All n ready id xs (p ∷ ps) (h, hs) =
    (set_if (p.id == id) h, set_ready-All n ready id xs ps hs)
  where
    set_if : (b : Bool) → Fits n xs p → Fits n xs (if b then record p { ready = ready } else p)
    set_if true f = record { counted = f.counted; old_id = f.old_id }
    set_if false f = f

pub give_up-All :
    (n id : ℕ) (xs : List ℕ) (ps : List Managed)
    → find_id id ps ≡ none
    → All (Fits n xs) ps
    → All (Fits n (remove_one id xs)) ps
unfolding find_id
give_up-All n id xs [] e h = tt
give_up-All n id xs (p ∷ ps) e (h, hs) = elim (Bool-cases (p.id == id)) [
  | inl here ↦ absurd (differ (rw here at e))
  | inr other ↦ (
    record { counted = counted-give_up id xs p other h.counted; old_id = h.old_id },
    give_up-All n id xs ps (rw other at e) hs,
  )
]
  where
    differ : {q : Managed} → some q ≡ none → ⊥
    differ e = cc

pub close_idle-Balanced :
    (m : Manager) (o : Option Managed) (xs : List ℕ)
    → Balanced m xs
    → Balanced (close_idle m o).0 xs
unfolding do_close_path
close_idle-Balanced m none xs b = b
close_idle-Balanced m (some p) xs b = elim (Bool-cases (p.pending == 0)) [
  | inl idle ↦
      rw idle
        (record { fits = delete_path-All (Fits m.next_id xs) p.name m.paths b.fits; old = b.old })
  | inr busy ↦ rw busy b
]

-- What a reload leaves of the paths.
abbrev pub LeftFit : ℕ → List ℕ → Option Reloaded → Type 0
LeftFit n xs none = Unit {0}
LeftFit n xs (some r) = All (Fits n xs) r.left

pub apply_verdict-LeftFit :
    (n : ℕ) (xs : List ℕ) (p : Managed) (w : Verdict) (rest : Option Reloaded)
    → Fits n xs p
    → LeftFit n xs rest
    → LeftFit n xs (apply_verdict p w rest)
apply_verdict-LeftFit n xs p keep none f l = tt
apply_verdict-LeftFit n xs p keep (some r) f l = (f, l)
apply_verdict-LeftFit n xs p close_it none f l = tt
apply_verdict-LeftFit n xs p close_it (some r) f l = l
apply_verdict-LeftFit n xs p no_old_conf rest f l = tt
apply_verdict-LeftFit n xs p (reload_it new) none f l = tt
apply_verdict-LeftFit n xs p (reload_it new) (some r) f l =
    (record { counted = f.counted; old_id = f.old_id }, l)

pub create_static-Balanced :
    (cs : Confs) (m : Manager) (xs : List ℕ) → Balanced m xs → Balanced (create_static cs m).0 xs
unfolding create_static
create_static-Balanced [] m xs b = b
create_static-Balanced ((key, c) ∷ cs) m xs b =
    create_static-Balanced cs (with_static c.regexp (find_path key m.paths) m c key).0 xs
      (one c.regexp (find_path key m.paths))
  where
    one : (r : Option ℕ) (o : Option Managed) → Balanced (with_static r o m c key).0 xs
    one none none = create_path-Balanced m c key [] xs b
    one none (some p) = b
    one (some r) o = b
