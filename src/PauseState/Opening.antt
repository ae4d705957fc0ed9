-- ===== src/PauseState/Opening.antt =====
-- internal/protocols/webrtc/media_state.go: once a media was started, all of its video passes.
use ppmmx.Base.{
  ℕ, suc, ◌+◌, ◌≡◌, refl, ap, subst, ◌⊎◌, inl, inr, Bool, true, false, not, ◌&&◌, List, [], ◌∷◌,
  ◌++◌, ◌==◌, if◌then◌else◌, All, arith, Bool-cases,
}
use ppmmx.PauseState.{
  MediaType, video_media, audio_media, other_media, Media, Payload, MediaState, set_video_paused,
  is_start, allow_video, allow_by_type, allow, Event, pause_video, pause_audio, deliver,
  let_through, step, run,
}
use ppmmx.PauseState.Gated.{equal_of}
use ppmmx.PauseState.Branches.{Both, if-State}
use ppmmx.PauseState.Gating.{Of, count_of, count_of-append}
use ppmmx.PauseState.Started.{Started, allow_video-Started, allow_video-Started_other}

-- The units that the events deliver.
unfoldable pub offered : List Event → List (Media × Payload)
offered [] = []
offered (deliver media u ∷ es) = (media, u) ∷ offered es
offered (pause_video paused ∷ es) = offered es
offered (pause_audio paused ∷ es) = offered es

-- The events that do not pause video.
abbrev pub KeepsPlaying : Event → Type 0
KeepsPlaying (pause_video paused) = paused ≡ false
KeepsPlaying (pause_audio paused) = Unit {0}
KeepsPlaying (deliver media u) = Unit {0}

record Passes (m : ℕ) (e : Event) (o : MediaState × List (Media × Payload)) : Type 0 where
  started : Started m o.0
  all_through : count_of m o.1 ≡ count_of m (offered (e ∷ []))

let_through-Passes :
    (m : ℕ) (media : Media) (u : Payload) (o : MediaState × Bool)
    → Started m o.0
    → (Of m media.media_type media.address ≡ false) ⊎ (o.1 ≡ true)
    → Passes m (deliver media u) (let_through media u o)
unfolding count_of offered
let_through-Passes m media u (after, true) started why = record {
  started = started;
  all_through = refl;
}
let_through-Passes m media u (after, false) started (inl other) = record {
  started = started;
  all_through = rw other refl;
}
let_through-Passes m media u (after, false) started (inr passed) = cc

deliver-Passes :
    (idr m : ℕ) (s : MediaState) (t : MediaType) (a : ℕ) (u : Payload)
    → Started m s
    → Passes m
        (deliver (record { address = a; media_type = t }) u)
        (let_through (record { address = a; media_type = t }) u (allow_by_type idr s t a u))
deliver-Passes idr m s audio_media a u started =
    let_through-Passes m (record { address = a; media_type = audio_media }) u
      (s, not s.audio_paused) started (inl refl)
deliver-Passes idr m s other_media a u started =
    let_through-Passes m (record { address = a; media_type = other_media }) u (s, true) started
      (inl refl)
deliver-Passes idr m s video_media a u started =
    let media : Media = record { address = a; media_type = video_media } in
    elim (Bool-cases (a == m)) [
      | inl same ↦
          let both =
            subst (λ (n : ℕ). Both (Started m) true (allow_video idr s n u)) (equal_of a m same)
              (allow_video-Started idr m s u started.live (inr started)) in
          let_through-Passes m media u (allow_video idr s a u) both.0 (inr both.1)
      | inr other ↦
          let_through-Passes m media u (allow_video idr s a u)
            (allow_video-Started_other idr m a s u other started) (inl other)
    ]

set_video_paused-Started :
    (m : ℕ) (s : MediaState) (paused : Bool)
    → paused ≡ false
    → Started m s
    → Started m (set_video_paused s paused)
unfolding set_video_paused
set_video_paused-Started m s paused plays started =
    let live = started.live in
    if-State (Started m) (s.video_paused && not paused) _ _
      (λ resumed. absurd (never s.video_paused live resumed))
      (λ same. record { live = plays; reached = started.reached })
  where
    never : (was : Bool) → was ≡ false → (was && not paused) ≡ true → ⊥
    never true e h = cc
    never false e h = cc

step-Passes :
    (idr m : ℕ) (s : MediaState) (e : Event)
    → KeepsPlaying e
    → Started m s
    → Passes m e (step idr s e)
unfolding step count_of allow offered
step-Passes idr m s (deliver media u) plays started =
    deliver-Passes idr m s media.media_type media.address u started
step-Passes idr m s (pause_video paused) plays started = record {
  started = set_video_paused-Started m s paused plays started;
  all_through = refl;
}
step-Passes idr m s (pause_audio paused) plays started = record {
  started = record { live = started.live; reached = started.reached };
  all_through = refl;
}

offered-cons : (e : Event) (es : List Event) → offered (e ∷ es) ≡ offered (e ∷ []) ++ offered es
unfolding offered
offered-cons (deliver media u) es = refl
offered-cons (pause_video paused) es = refl
offered-cons (pause_audio paused) es = refl

run-Started :
    (idr m : ℕ) (s : MediaState) (es : List Event)
    → All KeepsPlaying es
    → Started m s
    → count_of m (run idr s es).1 ≡ count_of m (offered es)
unfolding run offered
run-Started idr m s [] plays started = refl
run-Started idr m s (e ∷ es) (plays, rest_plays) started =
    let now = step-Passes idr m s e plays started in
    let rest = run-Started idr m (step idr s e).0 es rest_plays now.started in
    let first = now.all_through in
    let out = count_of-append m (step idr s e).1 (run idr (step idr s e).0 es).1 in
    let all = ap (count_of m) (offered-cons e es) in
    let each = count_of-append m (offered (e ∷ [])) (offered es) in omega arith

opened-Started :
    (idr m : ℕ) (u : Payload) (es : List Event) (o : MediaState × Bool)
    → All KeepsPlaying es
    → Both (Started m) true o
    → count_of m (
        (let_through (record { address = m; media_type = video_media }) u o).1
        ++ (run idr (let_through (record { address = m; media_type = video_media }) u o).0 es).1)
      ≡ suc (count_of m (offered es))
unfolding count_of
opened-Started idr m u es (after, false) plays (started, passed) = cc
opened-Started idr m u es (after, true) plays (started, passed) =
    let rest = run-Started idr m after es plays started in one_and (m == m) _ _ (ground arith) rest
  where
    one_and : (b : Bool) (x y : ℕ) → b ≡ true → x ≡ y → (if b then 1 else 0) + x ≡ suc y
    one_and b x y e h = rw e (omega arith)

-- While video is not paused, a unit that ends the wait for a keyframe, an H264 access unit with an
-- IDR or a unit of another codec, is let through, and after it every video unit of its media, up to
-- the instant when video is paused.
pub run-opened :
    (idr m : ℕ) (s : MediaState) (u : Payload) (es : List Event)
    → s.video_paused ≡ false
    → is_start idr u ≡ true
    → All KeepsPlaying es
    → count_of m (run idr s (deliver (record { address = m; media_type = video_media }) u ∷ es)).1
      ≡ suc (count_of m (offered es))
unfolding run step allow
run-opened idr m s u es live starts plays =
    opened-Started idr m u es (allow_video idr s m u) plays
      (allow_video-Started idr m s u live (inl starts))
