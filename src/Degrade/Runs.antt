-- ===== src/Degrade/Runs.antt =====
-- A path's degrade state over any sequence of calls (internal/degrade/degrade.go), each of them one
-- step.
use Prim.Native.String.{String}
use ppmmx.Base.{ℕ, List, [], ◌∷◌}
use ppmmx.Base.Int.{ℤ}
use ppmmx.Base.Float.{Float64}
use ppmmx.Degrade.{State, new_state, Effect, observe_session_layer_count, bind_conn, unbind_conn}
use ppmmx.Degrade.Sample.{sample, Thresholds}
use ppmmx.Degrade.Ladder.{
  IsOnLadder, new_state-IsOnLadder, observe-IsOnLadder, sample-IsOnLadder, bind_conn-IsOnLadder,
  unbind_conn-IsOnLadder,
}
use ppmmx.Degrade.Delivery.{
  View, deliver, InSync, new_state-InSync, observe-InSync, sample-InSync, bind_conn-InSync,
  unbind_conn-InSync,
}

module _ (F : Float64) where
  -- The exported methods of `State`, with their arguments and the time of a sample.
  pub data Event : Type 0 where
    observed : ℤ → Event
    sampled : ℕ → ℕ → Thresholds F → ℕ → Event
    bound : ℕ → Event
    unbound : ℕ → Event

  unfoldable pub step : State → Event → State × List Effect
  step d (observed n) = observe_session_layer_count d n
  step d (sampled unrecov total t now) =
      let (action, e, out) = sample F d unrecov total t now in (e, out)
  step d (bound conn) = bind_conn d conn
  step d (unbound conn) = (unbind_conn d conn, [])

  -- The state after the calls, and what the connections last received.
  unfoldable pub run : State → View → List Event → State × View
  unfolding step
  run d v [] = (d, v)
  run d v (e ∷ es) = let (d', out) = step d e in run d' (deliver out v) es

  step_keeps :
      (d : State) (v : View) (e : Event)
      → IsOnLadder d
      → InSync d v
      → IsOnLadder (step d e).0 × InSync (step d e).0 (deliver (step d e).1 v)
  unfolding step deliver
  step_keeps d v (observed n) h s = (observe-IsOnLadder d n h, observe-InSync d v s n)
  step_keeps d v (sampled unrecov total t now) h s =
      (sample-IsOnLadder F d unrecov total t now h, sample-InSync F d v unrecov total t now s)
  step_keeps d v (bound conn) h s = (bind_conn-IsOnLadder d conn h, bind_conn-InSync d v s conn)
  step_keeps d v (unbound conn) h s =
      (unbind_conn-IsOnLadder d conn h, unbind_conn-InSync d v s conn)

  run_keeps :
      (d : State) (v : View) (es : List Event)
      → IsOnLadder d
      → InSync d v
      → IsOnLadder (run d v es).0 × InSync (run d v es).0 (run d v es).1
  unfolding run
  run_keeps d v [] h s = (h, s)
  run_keeps d v (e ∷ es) h s =
      let (h', s') = step_keeps d v e h s in
      run_keeps (step d e).0 (deliver (step d e).1 v) es h' s'

  -- After any calls of the methods on a new path, one at a time, the state is on the ladder, and
  -- if a connection is bound and the layer count is known, the last TARGET_STATE written to that
  -- connection is the state that the server keeps.
  pub run_sound :
      (path : String) (v : View) (es : List Event)
      → IsOnLadder (run (new_state path) v es).0
        × InSync (run (new_state path) v es).0 (run (new_state path) v es).1
  run_sound path v es =
      run_keeps (new_state path) v es (new_state-IsOnLadder path) (new_state-InSync path v)
