-- ===== src/PauseState/Started.antt =====
-- internal/protocols/webrtc/media_state.go: a media that was started in the current generation.
use ppmmx.Base.{
  ℕ, ◌≤◌, ◌<◌, ◌≡◌, refl, ap, subst, ◌⊎◌, inl, inr, true, false, ◌||◌, leb, ◌==◌, arith, Bool-cases,
}
use ppmmx.PauseState.{
  GenerationMap, Payload, MediaState, entry_of, set_generation, register, or_zero, generation_of,
  is_start, allow_video,
}
use ppmmx.PauseState.Generations.{
  entry_of-set_generation_same, entry_of-set_generation_other, generation_of-registered_other,
  generation_of-register,
}
use ppmmx.PauseState.Gated.{equal_of}
use ppmmx.PauseState.Branches.{Both, if-Both, if-Holds}

-- Video is not paused, and the media `m` is of the current generation.
pub record Started (m : ℕ) (s : MediaState) : Type 0 where
  pub live : s.video_paused ≡ false
  pub reached : s.video_generation ≤ generation_of m s.video_media_generation

at_test : (g k : ℕ) → (g == 0 || leb g k) ≡ true → g ≤ k
at_test g k e = ground arith

past_test : (g k : ℕ) → (g == 0 || leb g k) ≡ false → k < g
past_test g k e = ground arith

register-Started :
    (m n : ℕ) (s : MediaState)
    → Started m s
    → Started m (record s { video_media_generation = register n 0 s.video_media_generation })
register-Started m n s started = record {
  live = started.live;
  reached =
      let es = s.video_media_generation in
      let old = started.reached in
      elim (Bool-cases (n == m)) [
        | inl same ↦
            subst (λ (k : ℕ). s.video_generation ≤ generation_of m (register k 0 es))
              (equal_of n m same)
              (elim (generation_of-register m 0 es) [
                | inl (missing, made) ↦ let nothing = ap or_zero missing in omega arith
                | inr kept ↦ omega arith
              ])
        | inr other ↦
            let kept = generation_of-registered_other (entry_of n es) m n 0 es other in omega arith
      ];
}

pub allow_video-Started :
    (idr m : ℕ) (s : MediaState) (u : Payload)
    → s.video_paused ≡ false
    → (is_start idr u ≡ true) ⊎ Started m s
    → Both (Started m) true (allow_video idr s m u)
unfolding allow_video
allow_video-Started idr m s u live why =
    let g = s.video_generation in
    let es = s.video_media_generation in
    if-Both (Started m) true s.video_paused _ _ (λ paused. cc)
      (λ same.
        if-Both (Started m) true (g == 0 || leb g (generation_of m es)) _ _
          (λ reached. (
            register-Started m m s
                (record { live = live; reached = at_test g (generation_of m es) reached }),
            refl,
          ))
          (λ behind.
            if-Both (Started m) true (is_start idr u) _ _
              (λ starts. (record { live = live; reached = set_reached g (register m 0 es) }, refl))
              (λ refused. elim why [
                | inl starts ↦ cc
                | inr started ↦
                    let old = started.reached in absurd (not_both g (generation_of m es) behind old)
              ])))
  where
    set_reached : (g : ℕ) (es : GenerationMap) → g ≤ generation_of m (set_generation m g es)
    set_reached g es = let set = ap or_zero (entry_of-set_generation_same m g es) in omega arith

    not_both : (g k : ℕ) → (g == 0 || leb g k) ≡ false → g ≤ k → ⊥
    not_both g k e h = let less = past_test g k e in omega arith

pub allow_video-Started_other :
    (idr m n : ℕ) (s : MediaState) (u : Payload)
    → (n == m) ≡ false
    → Started m s
    → Started m (allow_video idr s n u).0
unfolding allow_video
allow_video-Started_other idr m n s u other started =
    let g = s.video_generation in
    let es = s.video_media_generation in
    let known = register-Started m n s started in
    let live = started.live in
    if-Holds (Started m) s.video_paused _ _ (λ paused. cc)
      (λ same.
        if-Holds (Started m) (g == 0 || leb g (generation_of n es)) _ _ (λ reached. known)
          (λ behind.
            if-Holds (Started m) (is_start idr u) _ _
              (λ starts. record {
                live = live;
                reached =
                    let old = known.reached in
                    let kept =
                      ap or_zero (entry_of-set_generation_other m n g (register n 0 es) other) in
                    omega arith;
              })
              (λ refused. known)))
