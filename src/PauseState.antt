-- ===== src/PauseState.antt =====
-- internal/protocols/webrtc/media_state.go: which audio and video of a stream one WHEP reader gets,
-- by what is paused, and the wait for a keyframe after a resume. A media is told apart by its
-- address, and the map of the generations is the list of its entries, one for each address. The
-- number of an IDR's NALU type is a parameter, since it is a constant of mediacommon. The two atomic
-- operations of `SetVideoPaused` are the functions `swap_video_paused` and `bump`.
pub mod Generations
pub mod Gated
pub mod Gating
pub mod Branches
pub mod Started
pub mod Opening
mod Tests
use ppmmx.Base.{
  ℕ, zero, suc, ◌+◌, ◌%◌, ◌^◌, Bool, true, false, not, ◌&&◌, ◌||◌, Option, none, some, List, [],
  ◌∷◌, ◌++◌, ltb, leb, ◌==◌, if◌then◌else◌, length,
}

pub data MediaType : Type 0 where
  video_media audio_media other_media : MediaType

pub record Media : Type 0 where
  pub address : ℕ
  pub media_type : MediaType

-- The access unit of H264, or what is of another codec.
pub data Payload : Type 0 where
  payload_h264 : List (List ℕ) → Payload
  other_payload : Payload

abbrev pub GenerationMap : Type 0
GenerationMap = List (ℕ × ℕ)

pub record MediaState : Type 0 where
  pub video_paused : Bool
  pub audio_paused : Bool
  pub video_generation : ℕ
  pub video_media_generation : GenerationMap

unfoldable pub entry_of : ℕ → GenerationMap → Option ℕ
entry_of m [] = none
entry_of m (e ∷ es) = if e.0 == m then some e.1 else entry_of m es

unfoldable pub set_generation : ℕ → ℕ → GenerationMap → GenerationMap
set_generation m g [] = (m, g) ∷ []
set_generation m g (e ∷ es) = if e.0 == m then (m, g) ∷ es else e ∷ set_generation m g es

abbrev pub registered : Option ℕ → ℕ → ℕ → GenerationMap → GenerationMap
registered none m g es = set_generation m g es
registered (some there) m g es = es

-- The entry is made if there is none.
abbrev pub register : ℕ → ℕ → GenerationMap → GenerationMap
register m g es = registered (entry_of m es) m g es

abbrev pub or_zero : Option ℕ → ℕ
or_zero none = 0
or_zero (some g) = g

abbrev pub generation_of : ℕ → GenerationMap → ℕ
generation_of m es = or_zero (entry_of m es)

-- Swap: the new state, and what was there.
abbrev pub swap_video_paused : MediaState → Bool → MediaState × Bool
swap_video_paused s paused = (record s { video_paused = paused }, s.video_paused)

-- Add(1) of a uint64
abbrev pub bump : MediaState → MediaState
bump s = record s { video_generation = (s.video_generation + 1) % 2 ^ 64 }

unfoldable pub set_video_paused : MediaState → Bool → MediaState
set_video_paused s paused =
    let (swapped, was_paused) = swap_video_paused s paused in
    if was_paused && not paused then bump swapped else swapped

abbrev pub set_audio_paused : MediaState → Bool → MediaState
set_audio_paused s paused = record s { audio_paused = paused }

unfoldable pub any_below : ℕ → GenerationMap → Bool
any_below g [] = false
any_below g (e ∷ es) = if ltb e.1 g then true else any_below g es

unfoldable pub video_needs_keyframe : MediaState → Bool
video_needs_keyframe s =
    let g = s.video_generation in
    if g == 0 || length s.video_media_generation == 0
    then not (g == 0)
    else any_below g s.video_media_generation

-- nalu[0]&0x1F of a byte is its rest by 32.
abbrev pub is_idr : ℕ → List ℕ → Bool
is_idr idr [] = false
is_idr idr (b ∷ bs) = b % 32 == idr

unfoldable pub has_idr : ℕ → List (List ℕ) → Bool
has_idr idr [] = false
has_idr idr (nalu ∷ nalus) = if is_idr idr nalu then true else has_idr idr nalus

-- A unit that ends the wait for a keyframe.
unfoldable pub is_start : ℕ → Payload → Bool
is_start idr (payload_h264 au) = has_idr idr au
is_start idr other_payload = true

unfoldable pub allow_video : ℕ → MediaState → ℕ → Payload → MediaState × Bool
allow_video idr s m u =
    let g = s.video_generation in
    let es = s.video_media_generation in
    let known = register m 0 es in
    if s.video_paused
    then (record s { video_media_generation = register m g es }, false)
    else if g == 0 || leb g (generation_of m es)
    then (record s { video_media_generation = known }, true)
    else if is_start idr u
    then (record s { video_media_generation = set_generation m g known }, true)
    else (record s { video_media_generation = known }, false)

abbrev pub allow_by_type : ℕ → MediaState → MediaType → ℕ → Payload → MediaState × Bool
allow_by_type idr s audio_media m u = (s, not s.audio_paused)
allow_by_type idr s video_media m u = allow_video idr s m u
allow_by_type idr s other_media m u = (s, true)

unfoldable pub allow : ℕ → MediaState → Media → Payload → MediaState × Bool
allow idr s media u = allow_by_type idr s media.media_type media.address u

-- What a session does, and what the stream delivers to it.
pub data Event : Type 0 where
  pause_video pause_audio : Bool → Event
  deliver : Media → Payload → Event

-- The units that the filter lets through.
abbrev pub let_through : Media → Payload → MediaState × Bool → MediaState × List (Media × Payload)
let_through media u (s, true) = (s, (media, u) ∷ [])
let_through media u (s, false) = (s, [])

unfoldable pub step : ℕ → MediaState → Event → MediaState × List (Media × Payload)
step idr s (pause_video paused) = (set_video_paused s paused, [])
step idr s (pause_audio paused) = (set_audio_paused s paused, [])
step idr s (deliver media u) = let_through media u (allow idr s media u)

unfoldable pub run : ℕ → MediaState → List Event → MediaState × List (Media × Payload)
run idr s [] = (s, [])
run idr s (e ∷ es) =
    let (after, out) = step idr s e in let (last, rest) = run idr after es in (last, out ++ rest)
