-- ===== src/Degrade/Delivery.antt =====
-- What the executor at the other end of the WebSocket knows: the last TARGET_STATE written to each
-- connection, against the state that the server keeps (internal/degrade/degrade.go).
use ppmmx.Base.{
  ℕ, ◌-◌, ◌*◌, ◌<◌, ◌≡◌, refl, Bool, Option, none, some, List, [], ◌∷◌, ◌==◌, if◌then◌else◌, arith,
}
use Prim.Native.String.{String}
use ppmmx.Base.Int.{ℤ, pos, negsuc}
use ppmmx.Base.Float.{Float64}
use ppmmx.Degrade.{
  State, new_state, Message, target_state, alert, Effect, write, close, Action, target_of,
  observe_session_layer_count, degrade, recover, bind_conn, unbind_conn, second,
}
use ppmmx.Degrade.Sample.{
  on_loss, on_compliance, record_sample, sample, Thresholds, loss_rate, refresh,
}
use ppmmx.Degrade.Ladder.{SameRung}
use ppmmx.Degrade.Cases.{record_sample-rule, sample-rule, rebased, allows_layer}

-- What each connection last received, if a write arrives.
abbrev pub View : Type 0
View = ℕ → Option Message

receive : Message → Option Message → Option Message
receive (target_state m) old = some (target_state m)
receive (alert m) old = old

unfoldable pub deliver : List Effect → View → View
unfolding receive
deliver [] v = v
deliver (write conn m ∷ out) v = deliver out (λ c. if c == conn then receive m (v c) else v c)
deliver (close conn ∷ out) v = deliver out v

-- The bound connection, if any, has received the state that the server keeps, once the layer count
-- is known.
abbrev pub InSyncAt : Option ℕ → State → View → Type 0
InSyncAt none d v = Unit {0}
InSyncAt (some conn) d v = 0 < d.max_layers → v conn ≡ some (target_of d)

abbrev pub InSync : State → View → Type 0
InSync d v = InSyncAt d.ws_conn d v

abbrev Delivers : State → View → Action × State × List Effect → Type 0
Delivers d v r = InSync r.1 (deliver r.2 v)

pub new_state-InSync : (path : String) (v : View) → InSync (new_state path) v
unfolding new_state
new_state-InSync path v = tt

module _ (d : State) (v : View) (synced : InSync d v) where
  pub observe-InSync :
      (n : ℤ)
      → InSync (observe_session_layer_count d n).0 (deliver (observe_session_layer_count d n).1 v)
  unfolding observe_session_layer_count deliver
  observe-InSync (negsuc n) = synced
  observe-InSync (pos n) = ground arith

  on_loss-InSync : (now window : ℕ) (allow : Bool) → Delivers d v (on_loss d now window allow)
  unfolding on_loss degrade deliver target_of
  on_loss-InSync now window allow = ground arith

  on_compliance-InSync :
      (since : Option ℕ) (now window : ℕ) → Delivers d v (on_compliance since d now window)
  unfolding on_compliance recover deliver target_of
  on_compliance-InSync none now window = ground arith
  on_compliance-InSync (some since) now window = ground arith

  pub bind_conn-InSync : (conn : ℕ) → InSync (bind_conn d conn).0 (deliver (bind_conn d conn).1 v)
  unfolding bind_conn deliver
  bind_conn-InSync conn = ground arith

  pub unbind_conn-InSync : (conn : ℕ) → InSync (unbind_conn d conn) v
  unfolding unbind_conn target_of
  unbind_conn-InSync conn = ground arith

  refresh-InSync : (now : ℕ) → InSync (refresh d now) v
  unfolding target_of
  refresh-InSync now = ground arith

-- Only the path, the layers and the bitrate of a state are delivered.
carry :
    (bound : Option ℕ) (d e : State) (v : View)
    → e.path ≡ d.path
    → SameRung d e
    → InSyncAt bound d v
    → InSyncAt bound e v
unfolding target_of
carry none d e v p same synced = tt
carry (some conn) d e v p same synced = λ known. ground (arith, synced (omega (arith, same)))

module _ (F : Float64) where
  record_sample-InSync :
      (d : State) (v : View) (unrecov total : ℕ) (t : Thresholds F) (now : ℕ)
      → InSync d v
      → Delivers d v (record_sample F d unrecov total t now)
  unfolding deliver target_of
  record_sample-InSync d v unrecov total t now synced =
      let fresh : State = refresh d now in
      let calm : State = record fresh { degrade_cooldown_until = none } in
      let window : ℕ = t.observation_sec * second in
      let same = refresh-InSync d v synced now in
      record_sample-rule F (Delivers d v) d unrecov total t now
        (λ e. on_loss-InSync fresh v same now window (allows_layer F t (loss_rate F unrecov total)))
        (λ e g.
          on_compliance-InSync calm v
            (carry fresh.ws_conn fresh calm v refl (refl, refl, refl) same) fresh.good_since now
            window)
        (λ e g. same)

  pub sample-InSync :
      (d : State) (v : View) (unrecov total : ℕ) (t : Thresholds F) (now : ℕ)
      → InSync d v
      → Delivers d v (sample F d unrecov total t now)
  unfolding deliver target_of
  sample-InSync d v unrecov total t now synced =
      let read : State = record d { last_unrecov = unrecov; last_total = total } in
      sample-rule F (Delivers d v) d unrecov total t now
        (λ e. carry d.ws_conn d (rebased d unrecov total) v refl (refl, refl, refl) synced)
        (λ e.
          record_sample-InSync read v (unrecov - d.last_unrecov) (total - d.last_total) t now
            (carry d.ws_conn d read v refl (refl, refl, refl) synced))
