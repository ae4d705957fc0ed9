-- ===== src/Degrade/Manager.antt =====
-- internal/degrade/manager.go: the registry of one state per path. The map is an association list;
-- the methods mutate the registered state through its pointer, so the model puts it back.
use Prim.Native.String.{String}
use text.Mathlib.Text.{◌==◌ as str_eq}
use text.Mathlib.TextEquality.{eq_iff}
use ppmmx.Base.{ℕ, ◌≡◌, refl, false, Option, none, some, List, [], ◌∷◌, if◌then◌else◌, arith}
use ppmmx.Base.Int.{ℤ}
use ppmmx.Base.Float.{Float64}
use ppmmx.Degrade.{State, new_state, Action, Effect, observe_session_layer_count}
use ppmmx.Degrade.Sample.{sample, Thresholds}

abbrev pub Registry : Type 0
Registry = List (String × State)

unfoldable pub lookup : String → Registry → Option State
lookup path [] = none
lookup path ((key, d) ∷ m) = if str_eq key path then some d else lookup path m

unfoldable pub store : String → State → Registry → Registry
store path d [] = (path, d) ∷ []
store path d ((key, e) ∷ m) = if str_eq key path then (path, d) ∷ m else (key, e) ∷ store path d m

-- The state that `GetOrCreate` returns.
abbrev pub found_or_new : Option State → String → State
found_or_new none path = new_state path
found_or_new (some d) path = d

unfoldable pub get_or_create : Registry → String → State × Registry
unfolding lookup store
get_or_create m path = elim (lookup path m) [
  | none ↦ (new_state path, store path (new_state path) m)
  | some d ↦ (d, m)
]

module _ (F : Float64) where
  unfoldable pub record_sample :
      Registry → String → ℕ → ℕ → Thresholds F → ℕ → Action × Registry × List Effect
  record_sample m path cum_unrecov cum_total t now =
      let (d, m') = get_or_create m path in
      let (action, e, out) = sample F d cum_unrecov cum_total t now in
      (action, store path e m', out)

unfoldable pub observe_session_layers : Registry → String → ℤ → Registry × List Effect
observe_session_layers m path real_layers =
    let (d, m') = get_or_create m path in
    let (e, out) = observe_session_layer_count d real_layers in (store path e m', out)

pub lookup-store :
    (path key : String) (d : State) (m : Registry)
    → lookup key (store path d m) ≡ (if str_eq path key then some d else lookup key m)
unfolding lookup store
lookup-store path key d [] = refl
lookup-store path key d ((k, e) ∷ m) =
    ground (arith, eq_iff path key, eq_iff k path, eq_iff k key, lookup-store path key d m)

get_or_create-state :
    (m : Registry) (path : String) → (get_or_create m path).0 ≡ found_or_new (lookup path m) path
unfolding get_or_create
get_or_create-state m path = ground arith

lookup-get_or_create :
    (m : Registry) (path key : String)
    → str_eq path key ≡ false
    → lookup key (get_or_create m path).1 ≡ lookup key m
unfolding get_or_create
lookup-get_or_create m path key e = ground (arith, lookup-store path key (new_state path) m)

module _ (F : Float64) where
  -- A sample acts on its own path alone: on that path, which is created if it is not there, the
  -- answer, the pushes and the new state are those of `Sample`, and the states of all other paths
  -- stay as they were.
  pub record_sample-frame :
      (m : Registry) (path : String) (unrecov total : ℕ) (t : Thresholds F) (now : ℕ)
      → let d = found_or_new (lookup path m) path in
        let (action, e, out) = sample F d unrecov total t now in
        let (action', m', out') = record_sample F m path unrecov total t now in
        (action' ≡ action)
        × (out' ≡ out)
        × (lookup path m' ≡ some e)
        × ((key : String) → str_eq path key ≡ false → lookup key m' ≡ lookup key m)
  unfolding record_sample
  record_sample-frame m path unrecov total t now =
      let (d, m') = get_or_create m path in
      let e = (sample F d unrecov total t now).1 in
      rw (← get_or_create-state m path) (
        refl,
        refl,
        ground (arith, lookup-store path path e m', eq_iff path path),
        λ key other.
            ground (arith, lookup-store path key e m', lookup-get_or_create m path key other),
      )
