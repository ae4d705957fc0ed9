-- ===== src/Moq/Reorderer.antt =====
-- internal/protocols/moq/reorderer/reorderer.go: subgroups put back into the order of their groups.
-- The map of the pending ones is the list of them, one for each group. `Push` returns no error; the
-- first loop of `flushUpTo` is on fuel, `none` when that runs out.
pub mod Order
pub mod Flush
pub mod Push
pub mod Runs
pub mod Wrap
mod Tests
use ppmmx.Base.{
  ℕ, zero, suc, ◌+◌, ◌-◌, ◌%◌, ◌^◌, Bool, true, false, ◌&&◌, ◌||◌, Option, none, some, List, [],
  ◌∷◌, ◌++◌, ltb, leb, ◌==◌, if◌then◌else◌, length,
}
use ppmmx.Moq.Subgroup.{SubGroup}

abbrev pub group : SubGroup → ℕ
group sg = sg.header.group_id

pub record Reorderer : Type 0 where
  pub max_reordered : ℕ
  pub initialized : Bool
  pub cur_group_id : ℕ
  pub pending : List SubGroup

-- The entry of the map, as a list of at most one.
unfoldable pub find : ℕ → List SubGroup → List SubGroup
find id [] = []
find id (sg ∷ sgs) = if group sg == id then sg ∷ [] else find id sgs

unfoldable pub delete : ℕ → List SubGroup → List SubGroup
delete id [] = []
delete id (sg ∷ sgs) = if group sg == id then delete id sgs else sg ∷ delete id sgs

unfoldable pub put : SubGroup → List SubGroup → List SubGroup
put sg sgs = sg ∷ delete (group sg) sgs

-- id + 1 of a uint64
abbrev pub following : ℕ → ℕ
following id = (id + 1) % 2 ^ 64

abbrev pub counted_if : Bool → ℕ
counted_if true = 1
counted_if false = 0

unfoldable pub count_in_range : ℕ → List SubGroup → ℕ
count_in_range id [] = 0
count_in_range id (sg ∷ sgs) = counted_if (leb (group sg) id) + count_in_range id sgs

-- What both loops of `flushUpTo` give: what is out, what is left, and the current group.
pub record Flushed : Type 0 where
  pub out : List SubGroup
  pub left : List SubGroup
  pub reached : ℕ

abbrev pub out_before : List SubGroup → Flushed → Flushed
out_before sgs f = record f { out = sgs ++ f.out }

abbrev pub out_first : List SubGroup → Option Flushed → Option Flushed
out_first sgs none = none
out_first sgs (some f) = some (out_before sgs f)

-- A round of the second loop, by the entry of the map: the end of the loop, or what goes on.
abbrev pub taken : List SubGroup → Flushed → Flushed → Flushed
taken [] stop go_on = stop
taken (sg ∷ sgs) stop go_on = out_before (sg ∷ []) go_on

-- The second loop: the groups that follow, for as long as they are there.
unfoldable pub take_following : ℕ → ℕ → List SubGroup → Flushed
take_following zero cur pending = record { out = []; left = pending; reached = cur }
take_following (suc rounds) cur pending =
    let rest = take_following rounds (following cur) (delete (following cur) pending) in
    taken (find (following cur) pending) (record { out = []; left = pending; reached = cur }) rest

-- The first loop, from `i` up to `last`, and then the second, which takes each pending subgroup once.
unfoldable pub take_up_to : ℕ → ℕ → ℕ → List SubGroup → Option Flushed
take_up_to zero i last pending = none
take_up_to (suc fuel) i last pending =
    let rest = out_first (find i pending) (take_up_to fuel (following i) last (delete i pending)) in
    if leb i last then rest else some (take_following (length pending) last pending)

abbrev pub flushed : Reorderer → Option Flushed → Option (Reorderer × List SubGroup)
flushed r none = none
flushed r (some f) = some (record r { pending = f.left; cur_group_id = f.reached }, f.out)

unfoldable pub flush_up_to : ℕ → Reorderer → ℕ → Option (Reorderer × List SubGroup)
flush_up_to fuel r last = flushed r (take_up_to fuel (following r.cur_group_id) last r.pending)

-- `Push`, once it is initialized.
unfoldable pub push_next : ℕ → Reorderer → SubGroup → Option (Reorderer × List SubGroup)
push_next fuel r sg =
    let id = group sg in
    let waiting = record r { pending = put sg r.pending } in
    let in_range = count_in_range id waiting.pending in
    if leb id r.cur_group_id
    then some (r, [])
    else if id == following r.cur_group_id && length r.pending == 0
    then some (record r { cur_group_id = id }, sg ∷ [])
    else if in_range == id - r.cur_group_id || ltb r.max_reordered (length waiting.pending)
    then flush_up_to fuel waiting id
    else some (waiting, [])

unfoldable pub push_subgroup : ℕ → Reorderer → SubGroup → Option (Reorderer × List SubGroup)
push_subgroup fuel r sg =
    if r.initialized
    then push_next fuel r sg
    else some (record r { initialized = true; cur_group_id = group sg }, sg ∷ [])
