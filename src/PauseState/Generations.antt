-- ===== src/PauseState/Generations.antt =====
-- internal/protocols/webrtc/media_state.go: the map of the generations.
use ppmmx.Base.{
  ℕ, ◌≤◌, ◌≡◌, refl, ap, ◌⊎◌, inl, inr, Bool, true, false, Option, none, some, [], ◌∷◌, ◌==◌,
  if◌then◌else◌, All, arith, Bool-cases,
}
use ppmmx.PauseState.{
  GenerationMap, entry_of, set_generation, registered, register, or_zero, generation_of,
}

-- No entry is of a generation that has not begun.
abbrev pub Within : ℕ → GenerationMap → Type 0
Within g es = All (λ (e : ℕ × ℕ). e.1 ≤ g) es

pub Within-weaken : (a b : ℕ) (es : GenerationMap) → a ≤ b → Within a es → Within b es
Within-weaken a b [] h w = tt
Within-weaken a b (e ∷ es) h (w, ws) = (omega arith, Within-weaken a b es h ws)

pub set_generation-Within :
    (g m v : ℕ) (es : GenerationMap) → v ≤ g → Within g es → Within g (set_generation m v es)
unfolding set_generation
set_generation-Within g m v [] h w = (h, tt)
set_generation-Within g m v (e ∷ es) h (w, ws) = elim (Bool-cases (e.0 == m)) [
  | inl same ↦ rw same (h, ws)
  | inr other ↦ rw other (w, set_generation-Within g m v es h ws)
]

pub registered-Within :
    (o : Option ℕ) (g m v : ℕ) (es : GenerationMap)
    → v ≤ g
    → Within g es
    → Within g (registered o m v es)
registered-Within none g m v es h w = set_generation-Within g m v es h w
registered-Within (some there) g m v es h w = w

pub generation_of-Within : (g m : ℕ) (es : GenerationMap) → Within g es → generation_of m es ≤ g
unfolding entry_of
generation_of-Within g m [] w = omega arith
generation_of-Within g m (e ∷ es) (w, ws) = elim (Bool-cases (e.0 == m)) [
  | inl same ↦ rw same w
  | inr other ↦ rw other (generation_of-Within g m es ws)
]

equal_refl : (m : ℕ) → (m == m) ≡ true
equal_refl m = ground arith

-- What is set is found.
pub entry_of-set_generation_same :
    (m v : ℕ) (es : GenerationMap) → entry_of m (set_generation m v es) ≡ some v
unfolding set_generation entry_of
entry_of-set_generation_same m v [] = rw (equal_refl m) refl
entry_of-set_generation_same m v (e ∷ es) = elim (Bool-cases (e.0 == m)) [
  | inl same ↦ rw same (rw (equal_refl m) refl)
  | inr other ↦ rw other (rw other (entry_of-set_generation_same m v es))
]

pub entry_of-set_generation_other :
    (m n v : ℕ) (es : GenerationMap)
    → (n == m) ≡ false
    → entry_of m (set_generation n v es) ≡ entry_of m es
unfolding set_generation entry_of
entry_of-set_generation_other m n v [] h = rw h refl
entry_of-set_generation_other m n v (e ∷ es) h = elim (Bool-cases (e.0 == n)) [
  | inl same ↦ rw same (rw h (rw (moved e.0 n m same h) refl))
  | inr other ↦ rw other (if_same (e.0 == m) e.1 _ _ (entry_of-set_generation_other m n v es h))
]
  where
    moved : (a b c : ℕ) → (a == b) ≡ true → (b == c) ≡ false → (a == c) ≡ false
    moved a b c h k = ground arith

    if_same :
        (b : Bool) (v : ℕ) (x y : Option ℕ)
        → x ≡ y
        → (if b then some v else x) ≡ (if b then some v else y)
    if_same b v x y e = rw e refl

-- An entry is made only where there is none, and another address keeps what it has.
pub generation_of-registered_other :
    (o : Option ℕ) (m n v : ℕ) (es : GenerationMap)
    → (n == m) ≡ false
    → generation_of m (registered o n v es) ≡ generation_of m es
generation_of-registered_other none m n v es h =
    ap or_zero (entry_of-set_generation_other m n v es h)
generation_of-registered_other (some there) m n v es h = refl

-- After the entry is made, the generation is the one of the entry.
pub generation_of-register :
    (m v : ℕ) (es : GenerationMap)
    → ((entry_of m es ≡ none) × (generation_of m (register m v es) ≡ v))
      ⊎ (generation_of m (register m v es) ≡ generation_of m es)
generation_of-register m v es = by_entry (entry_of m es) refl
  where
    by_entry :
        (o : Option ℕ)
        → entry_of m es ≡ o
        → ((entry_of m es ≡ none) × (generation_of m (register m v es) ≡ v))
          ⊎ (generation_of m (register m v es) ≡ generation_of m es)
    by_entry none e = inl (e, rw e (ap or_zero (entry_of-set_generation_same m v es)))
    by_entry (some g) e = inr (ap (λ (x : Option ℕ). generation_of m (registered x m v es)) e)
