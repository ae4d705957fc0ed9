-- ===== src/PathManager/Counts.antt =====
-- internal/core/path_manager.go: the count of the pending requests of a path.
use ppmmx.Base.{
  ℕ, suc, ◌-◌, ◌≡◌, ◌<◌, ◌≤◌, refl, sym, ◌∙◌, false, List, [], ◌∷◌, ◌==◌, if◌then◌else◌, arith,
  Bool-cases, inl, inr, All,
}
use ppmmx.PathManager.{Managed}
use ppmmx.PathManager.Sessions.{count_of, remove_one}

-- The count of pending requests of a path is that of the requests in flight to it.
abbrev pub IsCounted : List ℕ → Managed → Type 0
IsCounted xs p = p.pending ≡ count_of p.id xs

-- The numbers of the paths and of the requests have been given out.
abbrev pub IsOld : ℕ → ℕ → Type 0
IsOld next id = id < next

pub count_of-new : (next : ℕ) (xs : List ℕ) → All (IsOld next) xs → count_of next xs ≡ 0
unfolding count_of
count_of-new next [] h = refl
count_of-new next (x ∷ xs) (h, hs) = ground (arith, count_of-new next xs hs)

pub All-IsOld : (a b : ℕ) (xs : List ℕ) → a ≤ b → All (IsOld a) xs → All (IsOld b) xs
All-IsOld a b [] h k = tt
All-IsOld a b (x ∷ xs) h (k, ks) = (omega arith, All-IsOld a b xs h ks)

-- One more request to the path with that number.
pub counted-add :
    (id : ℕ) (xs : List ℕ) (p : Managed)
    → IsCounted xs p
    → IsCounted (id ∷ xs) (if p.id == id then record p { pending = suc p.pending } else p)
unfolding count_of
counted-add id xs p h = ground arith

pub remove_one-count :
    (id other : ℕ) (xs : List ℕ)
    → 0 < count_of id xs
    → count_of other (remove_one id xs)
      ≡ (if id == other then count_of other xs - 1 else count_of other xs)
unfolding count_of remove_one
remove_one-count id other [] h = absurd (omega arith)
remove_one-count id other (x ∷ xs) h = ground (arith, remove_one-count id other xs)

-- One request less, when there is one.
pub counted-drop :
    (id : ℕ) (xs : List ℕ) (p : Managed)
    → 0 < count_of id xs
    → IsCounted xs p
    → IsCounted (remove_one id xs) (if p.id == id then record p { pending = p.pending - 1 } else p)
counted-drop id xs p h k = ground (arith, remove_one-count id p.id xs h)

remove_one-other :
    (id other : ℕ) (xs : List ℕ)
    → (other == id) ≡ false
    → count_of other (remove_one id xs) ≡ count_of other xs
unfolding count_of remove_one
remove_one-other id other [] h = refl
remove_one-other id other (x ∷ xs) h = ground (arith, remove_one-other id other xs h)

-- A request that gives up on a path that is not there counts for none that is.
pub counted-give_up :
    (id : ℕ) (xs : List ℕ) (p : Managed)
    → (p.id == id) ≡ false
    → IsCounted xs p
    → IsCounted (remove_one id xs) p
counted-give_up id xs p h k = k ∙ sym (remove_one-other id p.id xs h)

pub All-remove_one : (n id : ℕ) (xs : List ℕ) → All (IsOld n) xs → All (IsOld n) (remove_one id xs)
unfolding remove_one
All-remove_one n id [] h = tt
All-remove_one n id (x ∷ xs) (h, hs) = elim (Bool-cases (x == id)) [
  | inl same ↦ rw same hs
  | inr other ↦ rw other (h, All-remove_one n id xs hs)
]
