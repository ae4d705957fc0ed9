-- ===== src/Moq/Reorderer/Tests.antt =====
-- internal/protocols/moq/reorderer/reorderer_test.go: runs on fixed subgroups, and the theorems at
-- concrete ones.
use ppmmx.Base.{
  ℕ, ◌-◌, ◌^◌, ◌≤◌, ◌≡◌, refl, true, false, Option, none, some, List, [], ◌∷◌, map, length, arith,
}
use ppmmx.Moq.Subgroup.{SubGroup}
use ppmmx.Moq.Reorderer.{
  group, Reorderer, find, delete, put, count_in_range, take_following, take_up_to, flush_up_to,
  push_next, push_subgroup,
}
use ppmmx.Moq.Reorderer.Order.{Waiting}
use ppmmx.Moq.Reorderer.Push.{initial, IsValid}
use ppmmx.Moq.Reorderer.Runs.{Increasing, push_all, push_all-Increasing}
use ppmmx.Moq.Reorderer.Wrap.{push_subgroup-none}

abbrev subgroup_of : ℕ → SubGroup
subgroup_of id = record {
  header = record { properties = false; first_object = false; track_alias = 0; group_id = id };
  objects = [];
}

abbrev groups_out : Option (Reorderer × List SubGroup) → List ℕ
groups_out none = []
groups_out (some (r, out)) = map group out

-- TestReordererOutOfOrderFilled
gap_filled :
    groups_out (push_all 10 (initial 5) (map subgroup_of (0 ∷ 2 ∷ 1 ∷ []))) ≡ 0 ∷ 1 ∷ 2 ∷ []
unfolding push_all push_subgroup push_next flush_up_to take_up_to take_following find delete put
    count_in_range
gap_filled = refl

-- The one that comes too late is skipped.
overfull_flushed :
    groups_out (push_all 10 (initial 1) (map subgroup_of (0 ∷ 2 ∷ 4 ∷ 1 ∷ 5 ∷ [])))
    ≡ 0 ∷ 2 ∷ 4 ∷ 5 ∷ []
unfolding push_all push_subgroup push_next flush_up_to take_up_to take_following find delete put
    count_in_range
overfull_flushed = refl

abbrev arrivals : List SubGroup
arrivals = map subgroup_of (0 ∷ 2 ∷ 4 ∷ 1 ∷ 5 ∷ [])

push_all-Increasing_example :
    (r : Reorderer) × (out : List SubGroup) × (push_all (2 ^ 64) (initial 1) arrivals
      ≡ some (r, out))
    × Increasing out
    × (length r.pending ≤ 1)
    × Waiting r.cur_group_id r.pending
push_all-Increasing_example =
    push_all-Increasing (2 ^ 64) 1 arrivals (omega arith)
      (omega arith, (omega arith, (omega arith, (omega arith, (omega arith, tt)))))

abbrev full : Reorderer
full = record {
  max_reordered = 1;
  initialized = true;
  cur_group_id = 3;
  pending = subgroup_of 7 ∷ [];
}

full-IsValid : IsValid full
full-IsValid = record {
  small = omega arith;
  waits = ((omega arith, omega arith), tt);
  within = omega arith;
  fresh = λ e. cc;
}

push_subgroup-none_example : push_subgroup 1000 full (subgroup_of (2 ^ 64 - 1)) ≡ none
push_subgroup-none_example =
    push_subgroup-none 1000 full (subgroup_of (2 ^ 64 - 1)) refl full-IsValid refl (omega arith)
      refl
