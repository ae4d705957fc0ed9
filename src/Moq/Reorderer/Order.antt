-- ===== src/Moq/Reorderer/Order.antt =====
-- internal/protocols/moq/reorderer/reorderer.go: what comes out is in the order of the groups.
use ppmmx.Base.{
  ℕ, suc, ◌+◌, ◌-◌, ◌^◌, ◌≤◌, ◌<◌, ◌≡◌, refl, ◌⊎◌, inl, inr, List, [], ◌∷◌, ◌++◌, leb, ◌==◌, length,
  All, arith, Bool-cases,
}
use ppmmx.Moq.Subgroup.{SubGroup}
use ppmmx.Moq.Reorderer.{group, find, delete, put, counted_if, count_in_range}

-- The last group id, after which a uint64 wraps.
abbrev pub last_id : ℕ
last_id = 2 ^ 64 - 1

-- The pending groups are above `lo`, and none of them is the last one.
abbrev pub Waiting : ℕ → List SubGroup → Type 0
Waiting lo sgs = All (λ (sg : SubGroup). (lo < group sg) × (group sg < last_id)) sgs

-- The groups are above `lo`, each above the one before it, and none is above `hi`.
unfoldable pub Ascends : ℕ → List SubGroup → ℕ → Type 0
Ascends lo [] hi = lo ≤ hi
Ascends lo (sg ∷ sgs) hi = (lo < group sg) × Ascends (group sg) sgs hi

pub Ascends-weaken :
    (a b : ℕ) (sgs : List SubGroup) (hi : ℕ) → a ≤ b → Ascends b sgs hi → Ascends a sgs hi
unfolding Ascends
Ascends-weaken a b [] hi h k = omega arith
Ascends-weaken a b (sg ∷ sgs) hi h (k, ks) = (omega arith, ks)

pub Ascends-append :
    (lo mid hi : ℕ) (xs ys : List SubGroup)
    → Ascends lo xs mid
    → Ascends mid ys hi
    → Ascends lo (xs ++ ys) hi
unfolding Ascends
Ascends-append lo mid hi [] ys h k = Ascends-weaken lo mid ys hi h k
Ascends-append lo mid hi (x ∷ xs) ys (h, hs) k = (h, Ascends-append (group x) mid hi xs ys hs k)

pub find-cases :
    (id : ℕ) (sgs : List SubGroup)
    → (find id sgs ≡ []) ⊎ ((sg : SubGroup) × (find id sgs ≡ sg ∷ []) × (group sg ≡ id))
unfolding find
find-cases id [] = inl refl
find-cases id (sg ∷ sgs) = elim (Bool-cases (group sg == id)) [
  | inl same ↦ inr (sg, (rw same refl), ground arith)
  | inr other ↦ rw other (find-cases id sgs)
]

pub find-Waiting :
    (lo id : ℕ) (sgs : List SubGroup)
    → Waiting lo sgs
    → (find id sgs ≡ []) ⊎ ((sg : SubGroup) × (find id sgs ≡ sg ∷ []) × (id < last_id))
unfolding find
find-Waiting lo id [] h = inl refl
find-Waiting lo id (sg ∷ sgs) (h, hs) = elim (Bool-cases (group sg == id)) [
  | inl same ↦ inr (sg, (rw same refl), ground arith)
  | inr other ↦ rw other (find-Waiting lo id sgs hs)
]

pub delete-Waiting :
    (lo : ℕ) (sgs : List SubGroup) → Waiting lo sgs → Waiting (suc lo) (delete (suc lo) sgs)
unfolding delete
delete-Waiting lo [] h = tt
delete-Waiting lo (sg ∷ sgs) (h, hs) = elim (Bool-cases (group sg == suc lo)) [
  | inl same ↦ rw same (delete-Waiting lo sgs hs)
  | inr other ↦ rw other ((ground arith, h.1), delete-Waiting lo sgs hs)
]

pub length-delete : (id : ℕ) (sgs : List SubGroup) → length (delete id sgs) ≤ length sgs
unfolding delete
length-delete id [] = omega arith
length-delete id (sg ∷ sgs) =
    let below = length-delete id sgs in
    elim (Bool-cases (group sg == id)) [
      | inl same ↦ rw same (omega arith)
      | inr other ↦ rw other (omega arith)
    ]

pub delete-Waiting_same :
    (id lo : ℕ) (sgs : List SubGroup) → Waiting lo sgs → Waiting lo (delete id sgs)
unfolding delete
delete-Waiting_same id lo [] h = tt
delete-Waiting_same id lo (sg ∷ sgs) (h, hs) = elim (Bool-cases (group sg == id)) [
  | inl same ↦ rw same (delete-Waiting_same id lo sgs hs)
  | inr other ↦ rw other (h, delete-Waiting_same id lo sgs hs)
]

pub counted_if-within : (id last : ℕ) → id ≤ last → counted_if (leb id last) ≡ 1
counted_if-within id last h = ground arith

pub counted_if-above : (id last : ℕ) → last < id → counted_if (leb id last) ≡ 0
counted_if-above id last h = ground arith

-- What is deleted of the range leaves the count of it as it leaves the length.
pub count_in_range-delete :
    (id last : ℕ) (sgs : List SubGroup)
    → id ≤ last
    → length (delete id sgs) + count_in_range last sgs
      ≤ length sgs + count_in_range last (delete id sgs)
unfolding delete count_in_range
count_in_range-delete id last [] h = omega arith
count_in_range-delete id last (sg ∷ sgs) h =
    let rest = count_in_range-delete id last sgs h in
    elim (Bool-cases (group sg == id)) [
      | inl same ↦
          rw same (let one = counted_if-within (group sg) last (ground arith) in omega arith)
      | inr other ↦ rw other (omega arith)
    ]

pub count_in_range-Waiting :
    (lo : ℕ) (sgs : List SubGroup) → Waiting lo sgs → count_in_range lo sgs ≡ 0
unfolding count_in_range
count_in_range-Waiting lo [] h = refl
count_in_range-Waiting lo (sg ∷ sgs) (h, hs) =
    let rest = count_in_range-Waiting lo sgs hs in
    let none_here = counted_if-above (group sg) lo h.0 in omega arith

pub put-Waiting :
    (lo : ℕ) (sg : SubGroup) (sgs : List SubGroup)
    → lo < group sg
    → group sg < last_id
    → Waiting lo sgs
    → Waiting lo (put sg sgs)
unfolding put
put-Waiting lo sg sgs h k w = ((h, k), delete-Waiting_same (group sg) lo sgs w)

pub length-put : (sg : SubGroup) (sgs : List SubGroup) → length (put sg sgs) ≤ suc (length sgs)
unfolding put
length-put sg sgs = let less = length-delete (group sg) sgs in omega arith

-- The subgroup that is put is in the range up to its group.
pub count_in_range-put :
    (sg : SubGroup) (sgs : List SubGroup) → 0 < count_in_range (group sg) (put sg sgs)
unfolding put count_in_range
count_in_range-put sg sgs =
    let here = counted_if-within (group sg) (group sg) (omega arith) in omega arith
