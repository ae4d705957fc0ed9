-- ===== src/Selector/Loading.antt =====
-- The tracks that `LoadFromDescription` of internal/protocols/webrtc/track_selector.go offers.
use ppmmx.Base.{
  ℕ, zero, suc, ◌+◌, ◌≤◌, ◌<◌, ◌≡◌, refl, inl, inr, Bool-cases, ◌∙◌, true, List, [], ◌∷◌, ◌++◌,
  length, length-append, drop, ◌↔◌, ltb, ◌==◌, if◌then◌else◌, arith, min,
}
use ppmmx.Base.Int.{pos}
use ppmmx.Selector.{
  Codec, LayerDefault, layer_defaults, TrackSelector, Media, no_track, new_track_selector,
  count_video, detect_codec, layer_tracks, audio_track, load_from_description, video_track_count,
  has_video, first_active,
}
use ppmmx.Selector.Switching.{IsSound}

video_track_count-layers :
    (n i : ℕ) (ls : List LayerDefault) (codec : Codec)
    → video_track_count (layer_tracks n i ls codec ++ (audio_track ∷ [])) ≡ min n (length ls)
unfolding video_track_count layer_tracks
video_track_count-layers zero i ls codec = omega arith
video_track_count-layers (suc n) i [] codec = omega arith
video_track_count-layers (suc n) i (l ∷ ls) codec =
    omega (arith, video_track_count-layers n (i + 1) ls codec)

-- Exactly the ids from `i` on are those of videos.
has_video-layers :
    (n i : ℕ) (ls : List LayerDefault) (codec : Codec) (id : ℕ)
    → has_video (pos id) (layer_tracks n i ls codec ++ (audio_track ∷ [])) ≡ true
    → (i ≤ id) × (id < i + min n (length ls))
unfolding has_video layer_tracks
has_video-layers zero i ls codec id h = cc
has_video-layers (suc n) i [] codec id h = cc
has_video-layers (suc n) i (l ∷ ls) codec id h =
    ground (arith, has_video-layers n (i + 1) ls codec id)

layers-has_video :
    (n i : ℕ) (ls : List LayerDefault) (codec : Codec) (id : ℕ)
    → i ≤ id
    → id < i + min n (length ls)
    → has_video (pos id) (layer_tracks n i ls codec ++ (audio_track ∷ [])) ≡ true
unfolding has_video layer_tracks
layers-has_video zero i ls codec id lo hi = absurd (omega arith)
layers-has_video (suc n) i [] codec id lo hi = absurd (omega arith)
layers-has_video (suc n) i (l ∷ ls) codec id lo hi =
    ground (arith, layers-has_video n (i + 1) ls codec id)

-- The number of layers that a description gives.
abbrev pub layer_count : List Media → ℕ
layer_count medias = min (count_video medias) 4

layers-capped :
    (n : ℕ) → (if ltb (length layer_defaults) n then length layer_defaults else n) ≡ min n 4
unfolding layer_defaults
layers-capped n = ground arith

loaded_tracks :
    (ts : TrackSelector) (medias : List Media)
    → (load_from_description ts medias).tracks
      ≡ layer_tracks (layer_count medias) 0 layer_defaults (detect_codec medias)
        ++ (audio_track ∷ [])
unfolding load_from_description
loaded_tracks ts medias = rw (layers-capped (count_video medias))

-- A description with v video medias gives min v 4 video tracks, whose ids are exactly the numbers
-- below that.
load-tracks :
    (ts : TrackSelector) (medias : List Media) (id : ℕ)
    → let loaded = load_from_description ts medias in
      (video_track_count loaded.tracks ≡ layer_count medias)
      × (has_video (pos id) loaded.tracks ≡ true → id < layer_count medias)
      × (id < layer_count medias → has_video (pos id) loaded.tracks ≡ true)
unfolding layer_defaults
load-tracks ts medias id =
    let n : ℕ = layer_count medias in
    let codec : Codec = detect_codec medias in
    rw (loaded_tracks ts medias) (
      omega (arith, video_track_count-layers n 0 layer_defaults codec),
      (λ h. omega (arith, has_video-layers n 0 layer_defaults codec id h)),
      λ h. layers-has_video n 0 layer_defaults codec id (omega arith) (omega arith),
    )

first_active-layers :
    (n : ℕ) (codec : Codec)
    → first_active (layer_tracks n 0 layer_defaults codec ++ (audio_track ∷ [])) no_track
      ≡ (if n == 0 then no_track else pos 0)
unfolding layer_tracks layer_defaults
first_active-layers zero codec = refl
first_active-layers (suc n) codec =
    ground
      (arith, length-append {0} (layer_tracks n 1 (drop 1 layer_defaults) codec) (audio_track ∷ []))

loaded_active :
    (medias : List Media)
    → (load_from_description new_track_selector medias).active_id
      ≡ (if layer_count medias == 0 then no_track else pos 0)
unfolding load_from_description new_track_selector
loaded_active medias =
    rw (layers-capped (count_video medias))
      (first_active-layers (layer_count medias) (detect_codec medias))

loaded_mode :
    (medias : List Media)
    → (load_from_description new_track_selector medias).passthrough ≡ (layer_count medias == 1)
unfolding load_from_description new_track_selector
loaded_mode medias = ground (arith, layers-capped (count_video medias))

-- A new selector that is given a description with v video medias offers min v 4 video tracks,
-- whose ids are exactly the numbers below that. Track 0 is active, or -1 if there is no video.
-- Nothing is pending, and the pass-through mode is on exactly if there is one video track.
pub load_offers :
    (medias : List Media) (id : ℕ)
    → let loaded = load_from_description new_track_selector medias in
      let layers = layer_count medias in
      (video_track_count loaded.tracks ≡ layers)
      × ((has_video (pos id) loaded.tracks ≡ true) ↔ (id < layers))
      × (loaded.active_id ≡ (if layers == 0 then no_track else pos 0))
      × (loaded.pending_id ≡ no_track)
      × (loaded.passthrough ≡ (layers == 1))
unfolding load_from_description new_track_selector
load_offers medias id =
    let (count, only, each) = load-tracks new_track_selector medias id in
    (count, (only, each), loaded_active medias, refl, loaded_mode medias)

pub load-IsSound : (medias : List Media) → IsSound (load_from_description new_track_selector medias)
load-IsSound medias =
    let (count, ids, active, pending, mode) = load_offers medias 0 in
    record {
      active_known = elim (Bool-cases (layer_count medias == 0)) [
        | inl no_video ↦ inl (active ∙ rw no_video)
        | inr videos ↦ inr (rw (active, videos) (ids.1 (ground arith)))
      ];
      pending_known = inl pending;
      pending_other = inl pending;
    }
