-- ===== src/Moq/Reorderer/Wrap.antt =====
-- internal/protocols/moq/reorderer/reorderer.go: the last group id, after which a uint64 wraps.
use ppmmx.Base.{
  ℕ, zero, suc, ◌+◌, ◌-◌, ◌≤◌, ◌<◌, ◌≡◌, refl, ap, inl, inr, Bool, true, false, ◌&&◌, ◌||◌, Option,
  none, List, [], ◌∷◌, ltb, leb, ◌==◌, if◌then◌else◌, length, arith, Bool-cases,
}
use ppmmx.Moq.Subgroup.{SubGroup}
use ppmmx.Moq.Reorderer.{
  group, Reorderer, find, delete, put, following, count_in_range, flushed, out_first, take_up_to,
  flush_up_to, push_next, push_subgroup,
}
use ppmmx.Moq.Reorderer.Order.{last_id, Waiting}
use ppmmx.Moq.Reorderer.Push.{IsValid}

length-delete_missing :
    (id lo : ℕ) (sgs : List SubGroup)
    → last_id ≤ id
    → Waiting lo sgs
    → length (delete id sgs) ≡ length sgs
unfolding delete
length-delete_missing id lo [] e h = refl
length-delete_missing id lo (sg ∷ sgs) e (h, hs) = elim (Bool-cases (group sg == id)) [
  | inl same ↦ absurd (ground arith)
  | inr other ↦ rw other (ap suc (length-delete_missing id lo sgs e hs))
]

-- The first loop wraps before it gets past the last group id.
take_up_to-none :
    (fuel i last : ℕ) (pending : List SubGroup)
    → i ≤ last
    → last ≡ last_id
    → take_up_to fuel i last pending ≡ none
unfolding take_up_to
take_up_to-none zero i last pending h e = refl
take_up_to-none (suc fuel) i last pending h e =
    let rest = take_up_to-none fuel (following i) last (delete i pending) (omega arith) e in
    elim (Bool-cases (leb i last)) [
      | inl go_on ↦ rw go_on (ap (out_first (find i pending)) rest)
      | inr stop ↦ absurd (ground arith)
    ]

overfull : (full : Bool) (max n : ℕ) → max < n → (full || ltb max n) ≡ true
overfull full max n h = ground arith

does_not_follow :
    (id cur n : ℕ) → cur + 1 < last_id → id ≡ last_id → (id == following cur && n == 0) ≡ false
does_not_follow id cur n h e = ground arith

if-none :
    (b c : Bool) (x y : Option (Reorderer × List SubGroup))
    → b ≡ c
    → (if c then x else y) ≡ none
    → (if b then x else y) ≡ none
if-none b c x y e h = rw e h

-- A subgroup of the group 2 ^ 64 - 1 that makes `Push` flush, since as many are pending as
-- `MaxReordered` allows and the group is not the one that follows, is never returned from: the loop
-- runs out of any fuel.
pub push_subgroup-none :
    (fuel : ℕ) (r : Reorderer) (sg : SubGroup)
    → r.initialized ≡ true
    → IsValid r
    → length r.pending ≡ r.max_reordered
    → r.cur_group_id + 1 < last_id
    → group sg ≡ last_id
    → push_subgroup fuel r sg ≡ none
unfolding push_subgroup push_next flush_up_to put
push_subgroup-none fuel r sg started v full gap at_last =
    let id = group sg in
    let cur = r.cur_group_id in
    let all = put sg r.pending in
    let same = length-delete_missing id cur r.pending (omega arith) v.waits in
    let inside = count_in_range id all == id - cur in
    if-none r.initialized true _ _ started (
      if-none (leb id cur) false _ _ (ground arith) (
        if-none (id == following cur && length r.pending == 0) false _ _
          (does_not_follow id cur (length r.pending) gap at_last)
          (if-none (inside || ltb r.max_reordered (length all)) true _ _
            (overfull inside r.max_reordered (length all) (omega arith))
            (ap (flushed (record r { pending = all }))
              (take_up_to-none fuel (following cur) id all (omega arith) at_last)))))
