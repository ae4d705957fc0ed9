-- ===== src/Moq/Reorderer/Runs.antt =====
-- internal/protocols/moq/reorderer/reorderer.go: runs of `Push` on the subgroups that arrive.
use ppmmx.Base.{
  ℕ, ◌^◌, ◌≤◌, ◌<◌, ◌≡◌, refl, ap, ◌∙◌, true, Option, none, some, List, [], ◌∷◌, ◌++◌, length, All,
  arith,
}
use ppmmx.Moq.Subgroup.{SubGroup}
use ppmmx.Moq.Reorderer.{group, Reorderer, push_subgroup}
use ppmmx.Moq.Reorderer.Order.{last_id, Waiting, Ascends, Ascends-append}
use ppmmx.Moq.Reorderer.Push.{initial, IsValid, push_subgroup-Pushes}

abbrev pub out_and :
    List SubGroup → Option (Reorderer × List SubGroup) → Option (Reorderer × List SubGroup)
out_and out none = none
out_and out (some (r, after)) = some (r, out ++ after)

abbrev pub after_push :
    Option (Reorderer × List SubGroup)
    → (Reorderer → Option (Reorderer × List SubGroup))
    → Option (Reorderer × List SubGroup)
after_push none go_on = none
after_push (some (r, out)) go_on = out_and out (go_on r)

-- All that comes out when the subgroups arrive one after the other.
unfoldable pub push_all : ℕ → Reorderer → List SubGroup → Option (Reorderer × List SubGroup)
push_all fuel r [] = some (r, [])
push_all fuel r (sg ∷ sgs) =
    after_push (push_subgroup fuel r sg) (λ (after : Reorderer). push_all fuel after sgs)

-- No group id is the last one of a uint64.
abbrev pub SmallIds : List SubGroup → Type 0
SmallIds sgs = All (λ (sg : SubGroup). group sg < last_id) sgs

-- Each group is above the one before it.
unfoldable pub Increasing : List SubGroup → Type 0
Increasing [] = Unit {0}
Increasing (sg ∷ []) = Unit {0}
Increasing (sg ∷ other ∷ sgs) = (group sg < group other) × Increasing (other ∷ sgs)

Increasing-Ascends :
    (sg : SubGroup) (sgs : List SubGroup) (hi : ℕ)
    → Ascends (group sg) sgs hi
    → Increasing (sg ∷ sgs)
unfolding Increasing Ascends
Increasing-Ascends sg [] hi h = tt
Increasing-Ascends sg (other ∷ sgs) hi (h, hs) = (h, Increasing-Ascends other sgs hi hs)

record Ran (r : Reorderer) (o : Option (Reorderer × List SubGroup)) : Type 0 where
  after : Reorderer
  out : List SubGroup
  there : o ≡ some (after, out)
  valid : IsValid after
  in_order : Ascends r.cur_group_id out after.cur_group_id
  same_max : after.max_reordered ≡ r.max_reordered

push_all-Ran :
    (fuel : ℕ) (r : Reorderer) (sgs : List SubGroup)
    → 2 ^ 64 ≤ fuel
    → r.initialized ≡ true
    → SmallIds sgs
    → IsValid r
    → Ran r (push_all fuel r sgs)
unfolding push_all Ascends
push_all-Ran fuel r [] enough started small v = record {
  after = r;
  out = [];
  there = refl;
  valid = v;
  in_order = omega arith;
  same_max = refl;
}
push_all-Ran fuel r (sg ∷ sgs) enough started (small, smalls) v =
    let first = push_subgroup-Pushes fuel r sg enough small v in
    let rest = push_all-Ran fuel first.after sgs enough first.started smalls first.valid in
    record {
      after = rest.after;
      out = first.out ++ rest.out;
      there =
          ap
            (λ (o : Option (Reorderer × List SubGroup)).
              after_push o (λ (after : Reorderer). push_all fuel after sgs))
            first.there
          ∙ ap (out_and first.out) rest.there;
      valid = rest.valid;
      in_order =
          Ascends-append r.cur_group_id first.after.cur_group_id rest.after.cur_group_id first.out
            rest.out (first.in_order started) rest.in_order;
      same_max = rest.same_max ∙ first.same_max;
    }

initial-IsValid : (max : ℕ) → IsValid (initial max)
initial-IsValid max = record {
  small = omega arith;
  waits = tt;
  within = omega arith;
  fresh = λ e. refl;
}

-- When no group id is 2 ^ 64 - 1, every run from `Initialize` on returns: what came out, taken
-- together, has strictly increasing group ids, whatever order the subgroups arrived in, and no more
-- than `MaxReordered` subgroups are kept back, each of a group after the current one.
pub push_all-Increasing :
    (fuel max : ℕ) (sgs : List SubGroup)
    → 2 ^ 64 ≤ fuel
    → SmallIds sgs
    → (r : Reorderer) × (out : List SubGroup) × (push_all fuel (initial max) sgs ≡ some (r, out))
      × Increasing out
      × (length r.pending ≤ max)
      × Waiting r.cur_group_id r.pending
unfolding push_all push_subgroup Increasing
push_all-Increasing fuel max [] enough small = (initial max, [], refl, tt, omega arith, tt)
push_all-Increasing fuel max (sg ∷ sgs) enough (small, smalls) =
    let started : Reorderer = record (initial max) {
      initialized = true;
      cur_group_id = group sg;
    } in
    let v : IsValid started = record {
      small = small;
      waits = tt;
      within = omega arith;
      fresh = λ e. refl;
    } in
    let rest = push_all-Ran fuel started sgs enough refl smalls v in
    let within = rest.valid.within in
    let same = rest.same_max in
    (
      rest.after,
      sg ∷ rest.out,
      ap (out_and (sg ∷ [])) rest.there,
      Increasing-Ascends sg rest.out rest.after.cur_group_id rest.in_order,
      omega arith,
      rest.valid.waits,
    )
