-- ===== src/Selector.antt =====
-- internal/protocols/webrtc/track_selector.go: which Simulcast layer one WHEP reader receives. The
-- mutex makes each method one step; a method returns the new selector and the calls that it makes
-- of `onSwitched`, in order, if that is set. `OnTracksChanged` is told apart by a Boolean, log
-- lines are left out, and an instant is a clock reading in nanoseconds. A track's id is a natural
-- number (a layer index, or 999); the ids that callers pass are signed, as is "none", -1.
pub mod Dimensions
pub mod Loading
pub mod Switching
pub mod Completion
pub mod Session
mod Tests
use Prim.Native.String.{String}
use ppmmx.Base.{
  ℕ, zero, suc, ◌+◌, ◌-◌, ◌*◌, ◌/◌, ◌%◌, ◌^◌, min, Bool, true, false, not, ◌&&◌, ◌||◌, Option, none,
  some, List, [], ◌∷◌, ◌++◌, ltb, leb, ◌==◌, if◌then◌else◌, length,
}
use ppmmx.Base.Int.{ℤ, pos, negsuc, eqb_ℤ}

pub data TrackType : Type 0 where
  video audio : TrackType

pub data Codec : Type 0 where
  unknown h264 h265 vp9 vp8 av1 opus : Codec

-- The `Label` string: "%dp %s", or "Audio Opus".
pub data Label : Type 0 where
  quality : ℕ → Codec → Label
  audio_opus : Label

pub record TrackInfo : Type 0 where
  pub id : ℕ
  pub rid : String
  pub track_type : TrackType
  pub codec : Codec
  pub label : Label
  pub bitrate : ℕ
  pub width : ℕ
  pub height : ℕ
  pub dims_resolved : Bool

pub record LayerDefault : Type 0 where
  pub rid : String
  pub bitrate : ℕ
  pub w : ℕ
  pub h : ℕ

unfoldable pub layer_defaults : List LayerDefault
layer_defaults =
    record { rid = "0"; bitrate = 2000000; w = 1920; h = 1080 }
    ∷ record { rid = "1"; bitrate = 1000000; w = 1280; h = 720 }
    ∷ record { rid = "2"; bitrate = 400000; w = 640; h = 360 }
    ∷ record { rid = "3"; bitrate = 150000; w = 426; h = 240 }
    ∷ []

pub record TrackSelector : Type 0 where
  pub tracks : List TrackInfo
  pub active_id : ℤ
  pub pending_id : ℤ
  pub pending_at : ℕ
  pub passthrough : Bool

abbrev pub no_track : ℤ
no_track = negsuc 0

unfoldable pub new_track_selector : TrackSelector
new_track_selector = record {
  tracks = [];
  active_id = no_track;
  pending_id = no_track;
  pending_at = 0;
  passthrough = false;
}

-- pendingTimeout, 5 seconds
abbrev pub pending_timeout : ℕ
pending_timeout = 5 * 10 ^ 9

-- A media of the description (gortsplib): its type, and the types of its formats.
pub data MediaType : Type 0 where
  video_media audio_media application_media : MediaType

pub data Format : Type 0 where
  h264_format h265_format vp9_format vp8_format av1_format other_format : Format

pub record Media : Type 0 where
  pub media_type : MediaType
  pub formats : List Format

abbrev pub is_video_media : MediaType → Bool
is_video_media video_media = true
is_video_media _ = false

abbrev pub is_video : TrackType → Bool
is_video video = true
is_video audio = false

unfoldable pub count_video : List Media → ℕ
count_video [] = 0
count_video (m ∷ ms) = if is_video_media m.media_type then suc (count_video ms) else count_video ms

abbrev pub codec_of : Format → Codec
codec_of h264_format = h264
codec_of h265_format = h265
codec_of vp9_format = vp9
codec_of vp8_format = vp8
codec_of av1_format = av1
codec_of other_format = unknown

abbrev pub first_codec : List Format → Codec
first_codec [] = unknown
first_codec (f ∷ fs) = codec_of f

-- The first format of the first video media decides: both loops break after one round.
unfoldable pub detect_codec : List Media → Codec
detect_codec [] = unknown
detect_codec (m ∷ ms) =
    if is_video_media m.media_type then first_codec m.formats else detect_codec ms

abbrev pub layer_track : ℕ → LayerDefault → Codec → TrackInfo
layer_track i l codec = record {
  id = i;
  rid = l.rid;
  track_type = video;
  codec = codec;
  label = quality l.h codec;
  bitrate = l.bitrate;
  width = l.w;
  height = l.h;
  dims_resolved = false;
}

-- The first `n` layers of the table, from index `i` on.
unfoldable pub layer_tracks : ℕ → ℕ → List LayerDefault → Codec → List TrackInfo
layer_tracks zero i ls codec = []
layer_tracks (suc n) i [] codec = []
layer_tracks (suc n) i (l ∷ ls) codec = layer_track i l codec ∷ layer_tracks n (i + 1) ls codec

abbrev pub audio_track : TrackInfo
audio_track = record {
  id = 999;
  rid = "";
  track_type = audio;
  codec = opus;
  label = audio_opus;
  bitrate = 128000;
  width = 0;
  height = 0;
  dims_resolved = false;
}

-- ts.activeID = ts.tracks[0].ID, if there is a second track and the first is a video
abbrev pub first_active : List TrackInfo → ℤ → ℤ
first_active [] old = old
first_active (t ∷ ts) old =
    if ltb 1 (length (t ∷ ts)) && is_video t.track_type then pos t.id else old

unfoldable pub load_from_description : TrackSelector → List Media → TrackSelector
unfolding layer_defaults
load_from_description ts medias =
    let videos = count_video medias in
    let layers = if ltb (length layer_defaults) videos then length layer_defaults else videos in
    let tracks = layer_tracks layers 0 layer_defaults (detect_codec medias) ++ (audio_track ∷ []) in
    record ts {
      tracks = tracks;
      active_id = first_active tracks ts.active_id;
      passthrough = if layers == 1 then true else ts.passthrough;
    }

-- The two formulas of the OBS Simulcast ladder, for the ids of video tracks.
unfoldable pub obs_canvas_size_from_layer : ℕ → ℕ → ℕ → ℕ → ℕ × ℕ
obs_canvas_size_from_layer layer_index layer_count w h =
    let mult = layer_count - layer_index in
    if layer_index == 0 || leb layer_count 1
    then (w, h)
    else if mult == 0
    then (w, h)
    else (w * layer_count / mult, h * layer_count / mult)

-- w -= w % 2
abbrev pub even_floor : ℕ → ℕ
even_floor w = w - w % 2

unfoldable pub obs_simulcast_layer_size : ℕ → ℕ → ℕ → ℕ → ℕ × ℕ
obs_simulcast_layer_size layer_index layer_count canvas_w canvas_h =
    let mult = layer_count - layer_index in
    if layer_index == 0 || leb layer_count 1
    then (canvas_w, canvas_h)
    else (even_floor (canvas_w / layer_count * mult), even_floor (canvas_h / layer_count * mult))

-- VideoTrackCount, and the same count in SetTrackDimensions
unfoldable pub video_track_count : List TrackInfo → ℕ
video_track_count [] = 0
video_track_count (t ∷ ts) =
    if is_video t.track_type then suc (video_track_count ts) else video_track_count ts

abbrev pub is_video_with_id : TrackInfo → ℤ → Bool
is_video_with_id t id = is_video t.track_type && eqb_ℤ (pos t.id) id

abbrev pub or_else {ℓ} : {A : Type ℓ} → Option A → Option A → Option A
or_else (some t) other = some t
or_else none other = other

-- The last video track with the id, as the loop of SetTrackDimensions leaves it, with its place in
-- the list, counted from `i`.
unfoldable pub find_target : ℤ → ℕ → List TrackInfo → Option (ℕ × TrackInfo)
find_target id i [] = none
find_target id i (t ∷ ts) =
    or_else (find_target id (i + 1) ts) (if is_video_with_id t id then some (i, t) else none)

abbrev pub resolved : TrackInfo → ℕ → ℕ → TrackInfo
resolved t w h = record t {
  width = w;
  height = h;
  label = quality (min w h) t.codec;
  dims_resolved = true;
}

-- What the second loop of SetTrackDimensions makes of a track that is not the target.
unfoldable pub estimate : ℕ → ℕ → ℕ × ℕ → TrackInfo → TrackInfo
estimate id count canvas t =
    let size = obs_simulcast_layer_size t.id count canvas.0 canvas.1 in
    if not (is_video t.track_type) || (t.id == id || t.dims_resolved)
    then t
    else if size.0 == 0 || size.1 == 0
    then t
    else record t { width = size.0; height = size.1; label = quality (min size.0 size.1) t.codec }

-- The target, at the place `at`, takes the real size, and the other tracks their estimates.
unfoldable pub update_dimensions : ℕ → ℕ → TrackInfo → ℕ → ℕ → ℕ → List TrackInfo → List TrackInfo
unfolding estimate
update_dimensions i at target count w h [] = []
update_dimensions i at target count w h (t ∷ ts) =
    (if i == at
      then resolved t w h
      else estimate target.id count (obs_canvas_size_from_layer target.id count w h) t)
    ∷ update_dimensions (i + 1) at target count w h ts

abbrev pub apply_dimensions : Option (ℕ × TrackInfo) → TrackSelector → ℕ → ℕ → TrackSelector × Bool
apply_dimensions none ts w h = (ts, false)
apply_dimensions (some (at, target)) ts w h = if target.dims_resolved then (ts, false) else (
  record ts { tracks = update_dimensions 0 at target (video_track_count ts.tracks) w h ts.tracks },
  true,
)

-- The selector after the call, and whether `onTracksChanged` is called.
unfoldable pub set_track_dimensions : TrackSelector → ℤ → ℤ → ℤ → TrackSelector × Bool
set_track_dimensions ts id (negsuc w) height = (ts, false)
set_track_dimensions ts id (pos w) (negsuc h) = (ts, false)
set_track_dimensions ts id (pos w) (pos h) =
    if w == 0 || h == 0 then (ts, false) else apply_dimensions (find_target id 0 ts.tracks) ts w h

unfoldable pub should_queue : TrackSelector → ℤ → Bool
should_queue ts id = eqb_ℤ id ts.active_id || eqb_ℤ id ts.pending_id

unfoldable pub has_video : ℤ → List TrackInfo → Bool
has_video id [] = false
has_video id (t ∷ ts) = is_video_with_id t id || has_video id ts

-- A call of `onSwitched`: from, to.
abbrev pub Switches : Type 0
Switches = List (ℤ × ℤ)

-- Whether the target is accepted, the selector after the call, and the notifications.
unfoldable pub select : TrackSelector → ℤ → ℕ → Bool × TrackSelector × Switches
select ts target now =
    if not (has_video target ts.tracks)
    then (false, ts, [])
    else if eqb_ℤ target ts.active_id
    then (true, record ts { pending_id = no_track }, (ts.active_id, ts.active_id) ∷ [])
    else if ts.passthrough
    then (
      true,
      record ts { active_id = target; pending_id = no_track },
      (ts.active_id, target) ∷ [],
    )
    else (true, record ts { pending_id = target; pending_at = now }, [])

abbrev pub is_nonneg : ℤ → Bool
is_nonneg (pos n) = true
is_nonneg (negsuc n) = false

-- What OnAccessUnit answers, the selector after it, and the notifications.
pub record Answer : Type 0 where
  pub should_forward : Bool
  pub switched : Bool
  pub selector : TrackSelector
  pub notified : Switches

unfoldable pub on_access_unit : TrackSelector → ℤ → Bool → ℕ → Answer
on_access_unit ts id keyframe now =
    let forward = eqb_ℤ id ts.active_id in
    let quiet : Answer = record {
      should_forward = forward;
      switched = false;
      selector = ts;
      notified = [];
    } in
    let switch : Answer = record {
      should_forward = true;
      switched = true;
      selector = record ts { active_id = ts.pending_id; pending_id = no_track };
      notified = (ts.active_id, ts.pending_id) ∷ [];
    } in
    let cancel : Answer = record {
      should_forward = forward;
      switched = false;
      selector = record ts { pending_id = no_track };
      notified = (ts.active_id, ts.active_id) ∷ [];
    } in
    if ts.passthrough
    then record {
      should_forward = eqb_ℤ ts.active_id id;
      switched = false;
      selector = ts;
      notified = [];
    }
    else if is_nonneg ts.pending_id
    then (if eqb_ℤ id ts.pending_id && keyframe
        then switch
        else if ltb pending_timeout (now - ts.pending_at)
        then cancel
        else quiet)
    else quiet

unfoldable pub set_passthrough : TrackSelector → Bool → TrackSelector
set_passthrough ts v = record ts { passthrough = v }
