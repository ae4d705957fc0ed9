-- ===== src/Abr.antt =====
-- internal/servers/webrtc/abr_controller.go: the automatic choice of the layer of one reader, from
-- the packet loss and the round-trip time it reports. The controller belongs to one loop; `ts` is
-- its selector, which it only reads. An id that comes with ok = false is `none`.
pub mod Ladder
pub mod Streaks
pub mod Baseline
pub mod Window
mod Tests
use ppmmx.Base.{
  ℕ, zero, suc, ◌+◌, ◌-◌, Bool, true, false, not, ◌&&◌, ◌||◌, Option, none, some, List, [], ◌∷◌,
  ◌++◌, ltb, leb, if◌then◌else◌, length, drop, get_elem?,
}
use ppmmx.Base.Int.{ℤ, pos, negsuc, ◌+ℤ◌, eqb_ℤ}
use ppmmx.Base.Float.{Float64}
use ppmmx.Selector.{TrackInfo, TrackSelector, is_video}

abbrev pub rtt_window_samples : ℕ
rtt_window_samples = 30

abbrev pub downgrade_confirmations : ℕ
downgrade_confirmations = 2

abbrev pub upgrade_confirmations : ℕ
upgrade_confirmations = 5

-- sort.SliceStable on the bitrate: equal bitrates keep their order.
unfoldable pub insert : TrackInfo → List TrackInfo → List TrackInfo
insert t [] = t ∷ []
insert t (u ∷ us) = if leb t.bitrate u.bitrate then t ∷ u ∷ us else u ∷ insert t us

-- `videoLadder`
unfoldable pub video_ladder : List TrackInfo → List TrackInfo
video_ladder [] = []
video_ladder (t ∷ ts) =
    if is_video t.track_type then insert t (video_ladder ts) else video_ladder ts

abbrev pub next_index : Option ℕ → Option ℕ
next_index none = none
next_index (some i) = some (suc i)

-- The loop of `step`: the first index with the active id, `none` for -1.
unfoldable pub index_of : List TrackInfo → ℤ → Option ℕ
index_of [] active = none
index_of (t ∷ ts) active =
    if eqb_ℤ (pos t.id) active then some 0 else next_index (index_of ts active)

abbrev pub id_of : Option TrackInfo → Option ℕ
id_of none = none
id_of (some t) = some t.id

-- The id at an index of the ladder, if it is in range.
abbrev pub id_at : List TrackInfo → ℤ → Option ℕ
id_at ladder (pos i) = id_of (get_elem? ladder i)
id_at ladder (negsuc k) = none

abbrev pub step_from : List TrackInfo → Option ℕ → ℤ → Option ℕ
step_from ladder none delta = none
step_from ladder (some i) delta = id_at ladder (pos i +ℤ delta)

unfoldable pub step : List TrackInfo → ℤ → ℤ → Option ℕ
step ladder active delta = step_from ladder (index_of ladder active) delta

module _ (F : Float64) where
  open F use {Carrier, literal, mul, lt, le}

  pub record Controller : Type 0 where
    pub downgrade_count : ℕ
    pub upgrade_count : ℕ
    pub rtt_window : List Carrier
    pub rtt_min_ms : Carrier
    pub have_rtt : Bool

  unfoldable pub new_controller : Controller
  new_controller = record {
    downgrade_count = 0;
    upgrade_count = 0;
    rtt_window = [];
    rtt_min_ms = literal 0 0;
    have_rtt = false;
  }

  -- The least of `base` and the samples, as the loop of `observeRTT` finds it.
  unfoldable pub least : Carrier → List Carrier → Carrier
  least base [] = base
  least base (v ∷ vs) = least (if lt v base then v else base) vs

  abbrev pub least_of : Carrier → List Carrier → Carrier
  least_of old [] = old
  least_of old (v ∷ vs) = least v (v ∷ vs)

  -- The window with a sample more, cut to its last `rtt_window_samples`.
  abbrev pub slide : List Carrier → Carrier → List Carrier
  slide window rtt =
      let longer = window ++ (rtt ∷ []) in
      if ltb rtt_window_samples (length longer)
      then drop (length longer - rtt_window_samples) longer
      else longer

  unfoldable pub observe_rtt : Controller → Carrier → Controller
  observe_rtt c rtt =
      let window = slide c.rtt_window rtt in
      if le rtt (literal 0 0) then c else record c {
        rtt_window = window;
        rtt_min_ms = least_of c.rtt_min_ms window;
        have_rtt = true;
      }

  abbrev pub rtt_baseline : Controller → Carrier
  rtt_baseline c = if lt c.rtt_min_ms (literal 20 0) then literal 20 0 else c.rtt_min_ms

  unfoldable pub rtt_stable : Controller → Carrier → Bool
  rtt_stable c rtt =
      if not c.have_rtt || le rtt (literal 0 0)
      then true
      else le rtt (mul (rtt_baseline c) (literal 130 2))

  unfoldable pub rtt_congested : Controller → Carrier → Bool
  rtt_congested c rtt =
      if not c.have_rtt || le rtt (literal 0 0)
      then false
      else lt (mul (rtt_baseline c) (literal 200 2)) rtt

  -- The branches of `evaluate`, on a controller that has seen the sample.
  abbrev pub downgrade : Controller → List TrackInfo → ℤ → Controller × Option ℕ
  downgrade c ladder active =
      if leb downgrade_confirmations (suc c.downgrade_count)
      then (record c { upgrade_count = 0; downgrade_count = 0 }, step ladder active (negsuc 0))
      else (record c { upgrade_count = 0; downgrade_count = suc c.downgrade_count }, none)

  abbrev pub upgrade : Controller → List TrackInfo → ℤ → Controller × Option ℕ
  upgrade c ladder active =
      if leb upgrade_confirmations (suc c.upgrade_count)
      then (record c { downgrade_count = 0; upgrade_count = 0 }, step ladder active (pos 1))
      else (record c { downgrade_count = 0; upgrade_count = suc c.upgrade_count }, none)

  -- `evaluate`: the controller after it, and the track to switch to, if any.
  unfoldable pub evaluate : Controller → TrackSelector → Carrier → Carrier → Controller × Option ℕ
  evaluate c ts loss rtt =
      let seen = observe_rtt c rtt in
      let ladder = video_ladder ts.tracks in
      if ltb (length ladder) 2
      then (seen, none)
      else if le (literal 10 1) loss || rtt_congested seen rtt
      then downgrade seen ladder ts.active_id
      else if le loss (literal 3 1) && rtt_stable seen rtt
      then upgrade seen ladder ts.active_id
      else (record seen { upgrade_count = 0; downgrade_count = 0 }, none)

  unfoldable pub reset : Controller → Controller
  reset c = record c { downgrade_count = 0; upgrade_count = 0 }
