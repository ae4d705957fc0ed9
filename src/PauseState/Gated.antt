-- ===== src/PauseState/Gated.antt =====
-- internal/protocols/webrtc/media_state.go: what keeps a media waiting for a keyframe.
use ppmmx.Base.{
  ℕ, ◌+◌, ◌%◌, ◌^◌, ◌≤◌, ◌<◌, ◌≡◌, refl, ap, subst, inl, inr, Bool, true, false, not, ◌&&◌, ◌||◌,
  leb, ◌==◌, arith, Bool-cases,
}
use ppmmx.PauseState.{
  Payload, MediaState, entry_of, set_generation, register, or_zero, generation_of, set_video_paused,
  is_start, allow_video, Event, pause_video, pause_audio, deliver,
}
use ppmmx.PauseState.Generations.{
  Within, Within-weaken, set_generation-Within, registered-Within, generation_of-Within,
  entry_of-set_generation_other, generation_of-registered_other, generation_of-register,
}
use ppmmx.PauseState.Branches.{Both, if-Both, if-Holds, if-State}

abbrev pub one_if_live : Bool → ℕ
one_if_live true = 0
one_if_live false = 1

-- The media `m` has not been started since the last resume, or video is paused.
pub record Gated (m : ℕ) (s : MediaState) : Type 0 where
  pub within : Within s.video_generation s.video_media_generation
  pub behind :
      generation_of m s.video_media_generation + one_if_live s.video_paused ≤ s.video_generation

pub equal_of : (n m : ℕ) → (n == m) ≡ true → m ≡ n
equal_of n m e = ground arith

register-Gated :
    (m n v : ℕ) (s : MediaState)
    → v + one_if_live s.video_paused ≤ s.video_generation
    → Gated m s
    → Gated m (record s { video_media_generation = register n v s.video_media_generation })
register-Gated m n v s h gated = record {
  within =
      registered-Within (entry_of n s.video_media_generation) s.video_generation n v
        s.video_media_generation (omega arith) gated.within;
  behind =
      let old = gated.behind in
      elim (Bool-cases (n == m)) [
        | inl same ↦
            subst
              (λ (k : ℕ).
                generation_of m (register k v s.video_media_generation) + one_if_live s.video_paused
                ≤ s.video_generation)
              (equal_of n m same)
              (elim (generation_of-register m v s.video_media_generation) [
                | inl (missing, made) ↦ omega arith
                | inr kept ↦ omega arith
              ])
        | inr other ↦
            let kept =
              generation_of-registered_other (entry_of n s.video_media_generation) m n v
                s.video_media_generation other in
            omega arith
      ];
}

paused_fits :
    (s : MediaState)
    → s.video_paused ≡ true
    → s.video_generation + one_if_live s.video_paused ≤ s.video_generation
paused_fits s paused = rw paused (omega arith)

zero_fits :
    (s : MediaState) (k : ℕ)
    → k + one_if_live s.video_paused ≤ s.video_generation
    → 0 + one_if_live s.video_paused ≤ s.video_generation
zero_fits s k h = omega arith

not_started :
    (s : MediaState) (k : ℕ)
    → s.video_paused ≡ false
    → (s.video_generation == 0 || leb s.video_generation k) ≡ true
    → k + one_if_live s.video_paused ≤ s.video_generation
    → ⊥
not_started s k live e = rw live (λ h. ground arith)

-- A unit of the media that does not end the wait is refused.
pub allow_video-Gated :
    (idr m : ℕ) (s : MediaState) (u : Payload)
    → is_start idr u ≡ false
    → Gated m s
    → Both (Gated m) false (allow_video idr s m u)
unfolding allow_video
allow_video-Gated idr m s u waits gated =
    let old = gated.behind in
    if-Both (Gated m) false s.video_paused _ _
      (λ paused. (register-Gated m m s.video_generation s (paused_fits s paused) gated, refl))
      (λ live.
        if-Both (Gated m) false
          (s.video_generation == 0
            || leb s.video_generation (generation_of m s.video_media_generation))
          _ _
          (λ started.
            absurd (not_started s (generation_of m s.video_media_generation) live started old))
          (λ closed.
            if-Both (Gated m) false (is_start idr u) _ _ (λ starts. cc)
              (λ refused. (
                register-Gated m m 0 s (zero_fits s (generation_of m s.video_media_generation) old)
                    gated,
                refl,
              ))))

-- What is set for another address changes nothing for `m`.
set-Gated :
    (m n : ℕ) (s : MediaState)
    → (n == m) ≡ false
    → Gated m s
    → Gated m (record s {
      video_media_generation = set_generation n s.video_generation s.video_media_generation;
    })
set-Gated m n s other gated = record {
  within =
      set_generation-Within s.video_generation n s.video_generation s.video_media_generation
        (omega arith) gated.within;
  behind =
      let old = gated.behind in
      let kept =
        ap or_zero
          (entry_of-set_generation_other m n s.video_generation s.video_media_generation other) in
      omega arith;
}

pub allow_video-Gated_other :
    (idr m n : ℕ) (s : MediaState) (u : Payload)
    → (n == m) ≡ false
    → Gated m s
    → Gated m (allow_video idr s n u).0
unfolding allow_video
allow_video-Gated_other idr m n s u other gated =
    let old = gated.behind in
    let known =
      register-Gated m n 0 s (zero_fits s (generation_of m s.video_media_generation) old) gated in
    if-Holds (Gated m) s.video_paused _ _
      (λ paused. register-Gated m n s.video_generation s (paused_fits s paused) gated)
      (λ live.
        if-Holds (Gated m)
          (s.video_generation == 0
            || leb s.video_generation (generation_of n s.video_media_generation))
          _ _ (λ started. known)
          (λ closed.
            if-Holds (Gated m) (is_start idr u) _ _
              (λ starts.
                set-Gated m n
                  (record s { video_media_generation = register n 0 s.video_media_generation })
                  other known)
              (λ refused. known)))

-- The events of a session during which the media `m` has no start of video.
abbrev pub Waits : ℕ → ℕ → Event → Type 0
Waits idr m (deliver media u) = (media.address == m) ≡ true → is_start idr u ≡ false
Waits idr m (pause_video paused) = Unit {0}
Waits idr m (pause_audio paused) = Unit {0}

one_at_most : (b : Bool) → one_if_live b ≤ 1
one_at_most true = omega arith
one_at_most false = omega arith

no_resume :
    (was paused : Bool) (k g : ℕ)
    → (was && not paused) ≡ false
    → k ≤ g
    → k + one_if_live was ≤ g
    → k + one_if_live paused ≤ g
no_resume was true k g e h old = omega arith
no_resume false false k g e h old = old
no_resume true false k g e h old = cc

pub set_video_paused-Gated :
    (m : ℕ) (s : MediaState) (paused : Bool)
    → s.video_generation + 1 < 2 ^ 64
    → Gated m s
    → Gated m (set_video_paused s paused)
unfolding set_video_paused
set_video_paused-Gated m s paused h gated =
    let g = s.video_generation in
    let es = s.video_media_generation in
    let old = gated.behind in
    let at_most = generation_of-Within g m es gated.within in
    let one = one_at_most paused in
    if-State (Gated m) (s.video_paused && not paused) _ _
      (λ resumed. record {
        within = Within-weaken g ((g + 1) % 2 ^ 64) es (omega arith) gated.within;
        behind = omega arith;
      })
      (λ same. record {
        within = gated.within;
        behind = no_resume s.video_paused paused (generation_of m es) g same at_most old;
      })
