-- ===== src/Moq/Reorderer/Push.antt =====
-- internal/protocols/moq/reorderer/reorderer.go: one `Push`.
use ppmmx.Base.{
  ℕ, ◌-◌, ◌^◌, ◌≤◌, ◌<◌, ◌≡◌, refl, ap, sym, subst, Bool, true, false, ◌&&◌, ◌||◌, Option, some,
  List, [], ◌∷◌, ltb, leb, ◌==◌, if◌then◌else◌, length, arith,
}
use ppmmx.Moq.Subgroup.{SubGroup}
use ppmmx.Moq.Reorderer.{
  group, Reorderer, put, following, count_in_range, flushed, flush_up_to, push_next, push_subgroup,
}
use ppmmx.Moq.Reorderer.Order.{
  put-Waiting, length-put, count_in_range-put, last_id, Waiting, Ascends,
}
use ppmmx.Moq.Reorderer.Flush.{take_up_to-Flushes, following-small}

-- What `Initialize` gives.
abbrev pub initial : ℕ → Reorderer
initial max = record { max_reordered = max; initialized = false; cur_group_id = 0; pending = [] }

-- What holds before and after each `Push`.
pub record IsValid (r : Reorderer) : Type 0 where
  pub small : r.cur_group_id < last_id
  pub waits : Waiting r.cur_group_id r.pending
  pub within : length r.pending ≤ r.max_reordered
  pub fresh : r.initialized ≡ false → r.pending ≡ []

-- What comes out is in order above the current group, once there is one.
abbrev pub OutInOrder : Reorderer → List SubGroup → Reorderer → Type 0
OutInOrder r out after = r.initialized ≡ true → Ascends r.cur_group_id out after.cur_group_id

-- `push` returns, and keeps all that.
pub record Pushes (r : Reorderer) (o : Option (Reorderer × List SubGroup)) : Type 0 where
  pub after : Reorderer
  pub out : List SubGroup
  pub there : o ≡ some (after, out)
  pub valid : IsValid after
  pub in_order : OutInOrder r out after
  pub started : after.initialized ≡ true
  pub same_max : after.max_reordered ≡ r.max_reordered

flush-Pushes :
    (fuel : ℕ) (r : Reorderer) (sg : SubGroup)
    → 2 ^ 64 ≤ fuel
    → r.initialized ≡ true
    → r.cur_group_id < group sg
    → group sg < last_id
    → IsValid r
    → Pushes r (flush_up_to fuel (record r { pending = put sg r.pending }) (group sg))
unfolding flush_up_to
flush-Pushes fuel r sg enough started above small v =
    let all = put sg r.pending in
    let flow =
      take_up_to-Flushes fuel r.cur_group_id (group sg) all (omega arith) small (omega arith)
        (put-Waiting r.cur_group_id sg r.pending above small v.waits) in
    let f = flow.gives in
    let one = count_in_range-put sg r.pending in
    let all_but_one = length-put sg r.pending in
    let below = flow.shorter in
    let kept = v.within in
    rw (following-small r.cur_group_id (omega arith)) (record {
      after = record r { pending = f.left; cur_group_id = f.reached };
      out = f.out;
      there = ap (flushed (record r { pending = all })) flow.there;
      valid = record {
        small = flow.in_order.small;
        waits = flow.in_order.waits;
        within = omega arith;
        fresh = λ e. cc;
      };
      in_order = λ e. flow.in_order.ascending;
      started = started;
      same_max = refl;
    })

nothing_pending :
    (id cur : ℕ) (sgs : List SubGroup) → (id == cur && length sgs == 0) ≡ true → sgs ≡ []
nothing_pending id cur [] e = refl
nothing_pending id cur (sg ∷ sgs) e = absurd (ground arith)

follows : (id cur n : ℕ) → (id == following cur && n == 0) ≡ true → id ≡ following cur
follows id cur n e = ground arith

no_overflow : (full : Bool) (max n : ℕ) → (full || ltb max n) ≡ false → n ≤ max
no_overflow full max n e = ground arith

follow-Pushes :
    (r : Reorderer) (sg : SubGroup)
    → r.initialized ≡ true
    → group sg < last_id
    → r.cur_group_id < group sg
    → r.pending ≡ []
    → IsValid r
    → Pushes r (some (record r { cur_group_id = group sg }, sg ∷ []))
unfolding Ascends
follow-Pushes r sg started small above empty v = record {
  after = record r { cur_group_id = group sg };
  out = sg ∷ [];
  there = refl;
  valid = record {
    small = small;
    waits = subst (λ (sgs : List SubGroup). Waiting (group sg) sgs) (sym empty) tt;
    within = v.within;
    fresh = v.fresh;
  };
  in_order = λ e. (above, omega arith);
  started = started;
  same_max = refl;
}

wait-Pushes :
    (r : Reorderer) (sg : SubGroup)
    → r.initialized ≡ true
    → r.cur_group_id < group sg
    → group sg < last_id
    → length (put sg r.pending) ≤ r.max_reordered
    → IsValid r
    → Pushes r (some (record r { pending = put sg r.pending }, []))
unfolding Ascends
wait-Pushes r sg started above small within v = record {
  after = record r { pending = put sg r.pending };
  out = [];
  there = refl;
  valid = record {
    small = v.small;
    waits = put-Waiting r.cur_group_id sg r.pending above small v.waits;
    within = within;
    fresh = λ e. cc;
  };
  in_order = λ e. omega arith;
  started = started;
  same_max = refl;
}

skip-Pushes : (r : Reorderer) → r.initialized ≡ true → IsValid r → Pushes r (some (r, []))
unfolding Ascends
skip-Pushes r started v = record {
  after = r;
  out = [];
  there = refl;
  valid = v;
  in_order = λ e. omega arith;
  started = started;
  same_max = refl;
}

if-Pushes :
    (r : Reorderer) (b : Bool) (x y : Option (Reorderer × List SubGroup))
    → (b ≡ true → Pushes r x)
    → (b ≡ false → Pushes r y)
    → Pushes r (if b then x else y)
if-Pushes r true x y h k = h refl
if-Pushes r false x y h k = k refl

push_next-Pushes :
    (fuel : ℕ) (r : Reorderer) (sg : SubGroup)
    → 2 ^ 64 ≤ fuel
    → r.initialized ≡ true
    → group sg < last_id
    → IsValid r
    → Pushes r (push_next fuel r sg)
unfolding push_next
push_next-Pushes fuel r sg enough started small v =
    let id = group sg in
    let cur = r.cur_group_id in
    let all = put sg r.pending in
    let full = count_in_range id all == id - cur in
    if-Pushes r (leb id cur) _ _ (λ stale. skip-Pushes r started v)
      (λ fresh.
        if-Pushes r (id == following cur && length r.pending == 0) _ _
          (λ one_up.
            follow-Pushes r sg started small (ground arith)
              (nothing_pending id (following cur) r.pending one_up) v)
          (λ gap.
            if-Pushes r (full || ltb r.max_reordered (length all)) _ _
              (λ flushing. flush-Pushes fuel r sg enough started (ground arith) small v)
              (λ waiting.
                wait-Pushes r sg started (ground arith) small
                  (no_overflow full r.max_reordered (length all) waiting) v)))

start-Pushes :
    (r : Reorderer) (sg : SubGroup)
    → r.initialized ≡ false
    → group sg < last_id
    → IsValid r
    → Pushes r (some (record r { initialized = true; cur_group_id = group sg }, sg ∷ []))
start-Pushes r sg none_yet small v = record {
  after = record r { initialized = true; cur_group_id = group sg };
  out = sg ∷ [];
  there = refl;
  valid = record {
    small = small;
    waits = subst (λ (sgs : List SubGroup). Waiting (group sg) sgs) (sym (v.fresh none_yet)) tt;
    within = v.within;
    fresh = λ e. cc;
  };
  in_order = λ e. cc;
  started = refl;
  same_max = refl;
}

-- `Push` returns for every subgroup whose group id is not the last one. It keeps no more than
-- `MaxReordered` subgroups, all of them of groups after the current one, and once there is a current
-- group, what it gives out is in strictly ascending order, above that group and not above the new
-- current one.
pub push_subgroup-Pushes :
    (fuel : ℕ) (r : Reorderer) (sg : SubGroup)
    → 2 ^ 64 ≤ fuel
    → group sg < last_id
    → IsValid r
    → Pushes r (push_subgroup fuel r sg)
unfolding push_subgroup
push_subgroup-Pushes fuel r sg enough small v =
    if-Pushes r r.initialized _ _ (λ started. push_next-Pushes fuel r sg enough started small v)
      (λ none_yet. start-Pushes r sg none_yet small v)
