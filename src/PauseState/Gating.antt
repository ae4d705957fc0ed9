-- ===== src/PauseState/Gating.antt =====
-- internal/protocols/webrtc/media_state.go: after a resume a media waits for a keyframe.
use ppmmx.Base.{
  ℕ, ◌+◌, ◌^◌, ◌≤◌, ◌<◌, ◌≡◌, refl, subst, ◌⊎◌, inl, inr, Bool, true, false, not, List, [], ◌∷◌,
  ◌++◌, ◌==◌, if◌then◌else◌, length, All, arith, Bool-cases,
}
use ppmmx.PauseState.{
  MediaType, video_media, audio_media, other_media, Media, Payload, MediaState, set_video_paused,
  is_start, allow_video, allow_by_type, allow, Event, pause_video, pause_audio, deliver,
  let_through, step, run,
}
use ppmmx.PauseState.Generations.{Within, generation_of-Within}
use ppmmx.PauseState.Gated.{
  Gated, equal_of, allow_video-Gated, allow_video-Gated_other, set_video_paused-Gated, Waits,
}
use ppmmx.PauseState.Branches.{Both}

abbrev pub Of : ℕ → MediaType → ℕ → Bool
Of m video_media n = n == m
Of m audio_media n = false
Of m other_media n = false

-- How many of the units are video of the media `m`.
unfoldable pub count_of : ℕ → List (Media × Payload) → ℕ
count_of m [] = 0
count_of m (d ∷ ds) = (if Of m d.0.media_type d.0.address then 1 else 0) + count_of m ds

-- A step keeps the state gated, lets no video of the media through, and begins one generation at
-- most.
record Holds (m : ℕ) (s : MediaState) (o : MediaState × List (Media × Payload)) : Type 0 where
  gated : Gated m o.0
  none_through : count_of m o.1 ≡ 0
  one_more : o.0.video_generation ≤ s.video_generation + 1

let_through-Holds :
    (m : ℕ) (s : MediaState) (media : Media) (u : Payload) (o : MediaState × Bool)
    → Gated m o.0
    → o.0.video_generation ≤ s.video_generation + 1
    → (Of m media.media_type media.address ≡ false) ⊎ (o.1 ≡ false)
    → Holds m s (let_through media u o)
unfolding count_of
let_through-Holds m s media u (after, false) gated h why = record {
  gated = gated;
  none_through = refl;
  one_more = h;
}
let_through-Holds m s media u (after, true) gated h (inl other) = record {
  gated = gated;
  none_through = rw other refl;
  one_more = h;
}
let_through-Holds m s media u (after, true) gated h (inr refused) = cc

allow_video-generation :
    (idr : ℕ) (s : MediaState) (m : ℕ) (u : Payload)
    → (allow_video idr s m u).0.video_generation ≤ s.video_generation + 1
unfolding allow_video
allow_video-generation idr s m u = ground arith

set_video_paused-generation :
    (s : MediaState) (paused : Bool)
    → (set_video_paused s paused).video_generation ≤ s.video_generation + 1
unfolding set_video_paused
set_video_paused-generation s paused = ground arith

deliver-Holds :
    (idr m : ℕ) (s : MediaState) (t : MediaType) (a : ℕ) (u : Payload)
    → ((a == m) ≡ true → is_start idr u ≡ false)
    → Gated m s
    → Holds m s (let_through (record { address = a; media_type = t }) u (allow_by_type idr s t a u))
deliver-Holds idr m s audio_media a u waits gated =
    let_through-Holds m s (record { address = a; media_type = audio_media }) u
      (s, not s.audio_paused) gated (omega arith) (inl refl)
deliver-Holds idr m s other_media a u waits gated =
    let_through-Holds m s (record { address = a; media_type = other_media }) u (s, true) gated
      (omega arith) (inl refl)
deliver-Holds idr m s video_media a u waits gated =
    let media : Media = record { address = a; media_type = video_media } in
    let bound = allow_video-generation idr s a u in
    elim (Bool-cases (a == m)) [
      | inl same ↦
          let both =
            subst (λ (n : ℕ). Both (Gated m) false (allow_video idr s n u)) (equal_of a m same)
              (allow_video-Gated idr m s u (waits same) gated) in
          let_through-Holds m s media u (allow_video idr s a u) both.0 bound (inr both.1)
      | inr other ↦
          let_through-Holds m s media u (allow_video idr s a u)
            (allow_video-Gated_other idr m a s u other gated) bound (inl other)
    ]

step-Holds :
    (idr m : ℕ) (s : MediaState) (e : Event)
    → Waits idr m e
    → s.video_generation + 1 < 2 ^ 64
    → Gated m s
    → Holds m s (step idr s e)
unfolding step count_of allow
step-Holds idr m s (deliver media u) waits h gated =
    deliver-Holds idr m s media.media_type media.address u waits gated
step-Holds idr m s (pause_video paused) waits h gated = record {
  gated = set_video_paused-Gated m s paused h gated;
  none_through = refl;
  one_more = set_video_paused-generation s paused;
}
step-Holds idr m s (pause_audio paused) waits h gated = record {
  gated = record { within = gated.within; behind = gated.behind };
  none_through = refl;
  one_more = omega arith;
}

pub count_of-append :
    (m : ℕ) (xs ys : List (Media × Payload)) → count_of m (xs ++ ys) ≡ count_of m xs + count_of m ys
unfolding count_of
count_of-append m [] ys = omega arith
count_of-append m (x ∷ xs) ys = let rest = count_of-append m xs ys in omega arith

run-Waits :
    (idr m : ℕ) (s : MediaState) (es : List Event)
    → All (Waits idr m) es
    → s.video_generation + length es < 2 ^ 64
    → Gated m s
    → count_of m (run idr s es).1 ≡ 0
unfolding run count_of
run-Waits idr m s [] waits h gated = refl
run-Waits idr m s (e ∷ es) (waits, rest_waits) h gated =
    let now = step-Holds idr m s e waits (omega arith) gated in
    let more = now.one_more in
    let rest = run-Waits idr m (step idr s e).0 es rest_waits (omega arith) now.gated in
    let first = now.none_through in
    let both = count_of-append m (step idr s e).1 (run idr (step idr s e).0 es).1 in omega arith

-- While video is paused, and after any number of resumes and pauses, no video unit of a media is let
-- through before one that ends the wait: an H264 access unit with an IDR, or a unit of another
-- codec. The generations of the map are not above the current one, and the counter does not reach
-- 2 ^ 64 during the events.
pub run-Gated :
    (idr m : ℕ) (s : MediaState) (es : List Event)
    → s.video_paused ≡ true
    → Within s.video_generation s.video_media_generation
    → All (Waits idr m) es
    → s.video_generation + length es < 2 ^ 64
    → count_of m (run idr s es).1 ≡ 0
run-Gated idr m s es paused within waits h =
    let at_most = generation_of-Within s.video_generation m s.video_media_generation within in
    run-Waits idr m s es waits h (record { within = within; behind = rw paused (omega arith) })
