-- ===== src/Degrade/Race.antt =====
-- `BindConn` takes its two locks one after the other and writes with neither held
-- (internal/degrade/degrade.go): what another call between its parts does to the executor's view.
use ppmmx.Base.{
  ℕ, ◌-◌, ◌<◌, ◌≡◌, Bool, false, Option, none, some, List, [], ◌∷◌, ◌++◌, ◌==◌, if◌then◌else◌,
  arith, Bool-cases, inl, inr, append-nil,
}
use ppmmx.Degrade.{
  State, Message, Effect, write, close_previous, target_of, push_target_state, degrade, bind_conn,
}
use ppmmx.Degrade.Ladder.{IsOnLadder}
use ppmmx.Degrade.Delivery.{View, deliver, InSync}

-- Under the write lock: the connection is replaced and the previous one closed.
unfoldable pub bind_swap : State → ℕ → State × List Effect
bind_swap d conn = (record d { ws_conn = some conn }, close_previous d.ws_conn conn)

-- Under the state lock: the message is made, unless the layer count is unknown.
unfoldable pub bind_snapshot : State → Option Message
bind_snapshot d = if d.max_layers == 0 then none else some (target_of d)

-- With no lock held: the message is written.
unfoldable pub bind_write : ℕ → Option Message → List Effect
bind_write conn none = []
bind_write conn (some msg) = write conn msg ∷ []

-- With nothing between them the three parts are `bind_conn`.
pub bind_parts :
    (d : State) (conn : ℕ)
    → bind_conn d conn
      ≡ (let (e, closed) = bind_swap d conn in (e, closed ++ bind_write conn (bind_snapshot e)))
unfolding bind_conn bind_swap bind_snapshot bind_write
bind_parts d conn = elim (Bool-cases (d.max_layers == 0)) [
  | inl e ↦ rw (e, append-nil)
  | inr e ↦ rw e
]

abbrev slower : State → State
slower d = record d { bitrate_percent = d.bitrate_percent - 20 }

degrade_high :
    (d : State) (now : ℕ) (allow : Bool)
    → 0 < d.max_layers
    → 60 < d.bitrate_percent
    → degrade d now allow ≡ (false, slower d, push_target_state (slower d))
unfolding degrade
degrade_high d now allow known high = ground arith

-- A degrade between the snapshot and the write, of a path on the ladder above its bitrate floor:
-- the executor is left with the target state from before the degrade.
pub bind_race :
    (d : State) (conn now : ℕ) (allow : Bool) (v : View)
    → IsOnLadder d
    → 0 < d.max_layers
    → 60 < d.bitrate_percent
    → let e = (bind_swap d conn).0 in
      let (restarted, f, out) = degrade e now allow in
      ¬ InSync f (deliver (out ++ bind_write conn (bind_snapshot e)) v)
unfolding bind_swap bind_snapshot bind_write push_target_state deliver target_of
bind_race d conn now allow v h known high synced =
    let e : State = (bind_swap d conn).0 in
    let stale = rw (degrade_high e now allow known high) at synced in ground (arith, stale known)
