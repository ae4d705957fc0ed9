-- ===== src/Abr/Baseline.antt =====
-- internal/servers/webrtc/abr_controller.go: the window of round trips and its minimum.
use ppmmx.Base.{
  ◌≡◌, refl, ◌∙◌, ◌⊎◌, inl, inr, true, false, List, [], ◌∷◌, All, if◌then◌else◌, Bool-cases,
}
use ppmmx.Base.Float.{Float64}
use mathlib.Core.List.{Memᴰ}
use mathlib.Core.List.Memᴰ
use ppmmx.Abr.{least, least_of}

module _ (F : Float64) where
  open F use {Carrier, lt, le, literal, lt_le, lt_not_le, le_lt_trans}

  -- No sample lies below `base`.
  abbrev pub NoneBelow : Carrier → List Carrier → Type 0
  NoneBelow base vs = All (λ v. lt v base ≡ false) vs

  lt_irreflexive : (v : Carrier) → lt v v ≡ false
  lt_irreflexive v = elim (Bool-cases (lt v v)) [
    | inl below ↦ cc (lt_le v v below, lt_not_le v v below)
    | inr kept ↦ kept
  ]

  lt_trans : (a b c : Carrier) → lt a b ≡ true → lt b c ≡ true → lt a c ≡ true
  lt_trans a b c h k = le_lt_trans a b c (lt_le a b h) k

  -- The least sample is the first candidate, or below it.
  least-cases :
      (base : Carrier) (vs : List Carrier)
      → (least F base vs ≡ base) ⊎ (lt (least F base vs) base ≡ true)
  unfolding least
  least-cases base [] = inl refl
  least-cases base (v ∷ vs) = elim (Bool-cases (lt v base)) [
    | inl below ↦ rw below (
        inr (elim (least-cases v vs) [
          | inl e ↦ rw e below
          | inr lower ↦ lt_trans (least F v vs) v base lower below
        ]))
    | inr kept ↦ rw kept (least-cases base vs)
  ]

  not_below_least :
      (v base : Carrier) (vs : List Carrier) → lt v base ≡ false → lt v (least F base vs) ≡ false
  not_below_least v base vs kept = elim (Bool-cases (lt v (least F base vs))) [
    | inr no_lower ↦ no_lower
    | inl lower ↦ elim (least-cases base vs) [
      | inl e ↦ cc
      | inr low ↦ cc (lt_trans v (least F base vs) base lower low)
    ]
  ]

  abbrev lower_of : Carrier → Carrier → Carrier
  lower_of v base = if lt v base then v else base

  lower_of-kept : (v base : Carrier) → lt v (lower_of v base) ≡ false
  lower_of-kept v base = elim (Bool-cases (lt v base)) [
    | inl below ↦ rw below (lt_irreflexive v)
    | inr kept ↦ rw kept kept
  ]

  least-NoneBelow : (base : Carrier) (vs : List Carrier) → NoneBelow (least F base vs) vs
  unfolding least
  least-NoneBelow base [] = tt
  least-NoneBelow base (v ∷ vs) = (
    not_below_least v (lower_of v base) vs (lower_of-kept v base),
    least-NoneBelow (lower_of v base) vs,
  )

  -- The first candidate, when it is no sample, may be replaced by a sample.
  widen :
      (m v base : Carrier) (vs : List Carrier)
      → Memᴰ m (lower_of v base ∷ vs)
      → Memᴰ m (base ∷ v ∷ vs)
  widen m v base vs h = elim (Memᴰ.cases_cons h) [
    | inl e ↦ chosen (lower_of-either v base) e
    | inr later ↦ Memᴰ.tail (Memᴰ.tail later)
  ]
    where
      lower_of-either : (a b : Carrier) → (lower_of a b ≡ a) ⊎ (lower_of a b ≡ b)
      lower_of-either a b = elim (Bool-cases (lt a b)) [
        | inl below ↦ rw below (inl refl)
        | inr kept ↦ rw kept (inr refl)
      ]

      chosen :
          (lower_of v base ≡ v) ⊎ (lower_of v base ≡ base)
          → m ≡ lower_of v base
          → Memᴰ m (base ∷ v ∷ vs)
      chosen (inl p) e = Memᴰ.tail (Memᴰ.head (e ∙ p))
      chosen (inr p) e = Memᴰ.head (e ∙ p)

  least-Memᴰ : (base : Carrier) (vs : List Carrier) → Memᴰ (least F base vs) (base ∷ vs)
  unfolding least
  least-Memᴰ base [] = Memᴰ.head refl
  least-Memᴰ base (v ∷ vs) =
      widen (least F base (v ∷ vs)) v base vs (least-Memᴰ (lower_of v base) vs)

  -- `m` is the minimum of the samples, of which there is one.
  abbrev pub IsMinimum : Carrier → List Carrier → Type 0
  IsMinimum m vs = Memᴰ m vs × NoneBelow m vs

  pub least_of-IsMinimum :
      (old v : Carrier) (vs : List Carrier) → IsMinimum (least_of F old (v ∷ vs)) (v ∷ vs)
  least_of-IsMinimum old v vs = (again (least-Memᴰ v (v ∷ vs)), least-NoneBelow v (v ∷ vs))
    where
      again : {m : Carrier} → Memᴰ m (v ∷ v ∷ vs) → Memᴰ m (v ∷ vs)
      again h = elim (Memᴰ.cases_cons h) [ inl e ↦ Memᴰ.head e | inr later ↦ later ]
