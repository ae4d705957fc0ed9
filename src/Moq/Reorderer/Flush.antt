-- ===== src/Moq/Reorderer/Flush.antt =====
-- internal/protocols/moq/reorderer/reorderer.go: the two loops of `flushUpTo`.
use ppmmx.Base.{
  ℕ, zero, suc, ◌+◌, ◌≤◌, ◌<◌, ◌≡◌, refl, ap, sym, subst, inl, inr, false, Option, some, List, leb,
  length, arith, Bool-cases,
}
use ppmmx.Moq.Subgroup.{SubGroup}
use ppmmx.Moq.Reorderer.{
  group, find, delete, following, count_in_range, Flushed, out_before, out_first, take_following,
  take_up_to,
}
use ppmmx.Moq.Reorderer.Order.{
  last_id, Waiting, Ascends, Ascends-weaken, find-cases, delete-Waiting, length-delete,
  count_in_range-delete, count_in_range-Waiting, find-Waiting,
}

pub following-small : (id : ℕ) → id < last_id → following id ≡ suc id
following-small id h = omega arith

-- What the loops give, from the group `lo` on.
pub record InOrder (lo : ℕ) (f : Flushed) : Type 0 where
  pub ascending : Ascends lo f.out f.reached
  pub small : f.reached < last_id
  pub waits : Waiting f.reached f.left

pub InOrder-weaken : (a b : ℕ) (f : Flushed) → a ≤ b → InOrder b f → InOrder a f
InOrder-weaken a b f h k = record {
  ascending = Ascends-weaken a b f.out f.reached h k.ascending;
  small = k.small;
  waits = k.waits;
}

-- The entry of a group that comes out first.
pub InOrder-find :
    (lo : ℕ) (pending : List SubGroup) (f : Flushed)
    → InOrder (suc lo) f
    → InOrder lo (out_before (find (suc lo) pending) f)
unfolding Ascends
InOrder-find lo pending f h = elim (find-cases (suc lo) pending) [
  | inl missing ↦
      subst (λ (sgs : List SubGroup). InOrder lo (out_before sgs f)) (sym missing)
        (InOrder-weaken lo (suc lo) f (omega arith) h)
  | inr (sg, there, same) ↦
      subst (λ (sgs : List SubGroup). InOrder lo (out_before sgs f)) (sym there)
        (record {
          ascending = (
            (omega arith),
            Ascends-weaken (group sg) (suc lo) f.out f.reached (omega arith) h.ascending,
          );
          small = h.small;
          waits = h.waits;
        })
]

pub take_following-InOrder :
    (rounds cur : ℕ) (pending : List SubGroup)
    → cur < last_id
    → Waiting cur pending
    → InOrder cur (take_following rounds cur pending)
unfolding take_following Ascends
take_following-InOrder zero cur pending h k = record {
  ascending = omega arith;
  small = h;
  waits = k;
}
take_following-InOrder (suc rounds) cur pending h k =
    rw (following-small cur h) (elim (find-Waiting cur (suc cur) pending k) [
      | inl missing ↦ rw missing (record { ascending = omega arith; small = h; waits = k })
      | inr (sg, there, below) ↦
          let rest = take_following rounds (suc cur) (delete (suc cur) pending) in
          let after =
            take_following-InOrder rounds (suc cur) (delete (suc cur) pending) below
              (delete-Waiting cur pending k) in
          rw there (
            subst (λ (sgs : List SubGroup). InOrder cur (out_before sgs rest)) there
              (InOrder-find cur pending rest after))
    ])

pub length-take_following :
    (rounds cur : ℕ) (pending : List SubGroup)
    → length (take_following rounds cur pending).left ≤ length pending
unfolding take_following
length-take_following zero cur pending = omega arith
length-take_following (suc rounds) cur pending =
    let rest = length-take_following rounds (following cur) (delete (following cur) pending) in
    let less = length-delete (following cur) pending in
    elim (find-cases (following cur) pending) [
      | inl missing ↦ rw missing (omega arith)
      | inr (sg, there, same) ↦ rw there (omega arith)
    ]

-- What the first loop and the second one give, from the group `lo` on.
pub record Flushes (lo last : ℕ) (pending : List SubGroup) (o : Option Flushed) : Type 0 where
  pub gives : Flushed
  pub there : o ≡ some gives
  pub in_order : InOrder lo gives
  pub shorter : length gives.left + count_in_range last pending ≤ length pending

same_group : (lo last : ℕ) → lo ≤ last → leb (suc lo) last ≡ false → lo ≡ last
same_group lo last h stop = ground arith

pub take_up_to-Flushes :
    (fuel lo last : ℕ) (pending : List SubGroup)
    → lo ≤ last
    → last < last_id
    → last + 1 < fuel + lo
    → Waiting lo pending
    → Flushes lo last pending (take_up_to fuel (suc lo) last pending)
unfolding take_up_to
take_up_to-Flushes zero lo last pending h k m w = absurd (omega arith)
take_up_to-Flushes (suc fuel) lo last pending h k m w = elim (Bool-cases (leb (suc lo) last)) [
  | inl go_on ↦
      let rest =
        take_up_to-Flushes fuel (suc lo) last (delete (suc lo) pending) (ground arith) k
          (omega arith) (delete-Waiting lo pending w) in
      let less = count_in_range-delete (suc lo) last pending (ground arith) in
      rw go_on (
        rw (following-small (suc lo) (ground arith)) (record {
          gives = out_before (find (suc lo) pending) rest.gives;
          there = ap (out_first (find (suc lo) pending)) rest.there;
          in_order = InOrder-find lo pending rest.gives rest.in_order;
          shorter = let below = rest.shorter in omega arith;
        }))
  | inr stop ↦
      let here = same_group lo last h stop in
      let at_last = subst (λ (n : ℕ). Waiting n pending) here w in
      let counted_none = count_in_range-Waiting last pending at_last in
      let less = length-take_following (length pending) last pending in
      rw stop (record {
        gives = take_following (length pending) last pending;
        there = refl;
        in_order =
            InOrder-weaken lo last (take_following (length pending) last pending) h
              (take_following-InOrder (length pending) last pending k at_last);
        shorter = omega arith;
      })
]
