-- ===== src/Abr/Window.antt =====
-- internal/servers/webrtc/abr_controller.go: the window of round trips after any events.
use ppmmx.Base.{
  ℕ, zero, suc, ◌+◌, ◌-◌, ◌≤◌, ◌≡◌, refl, ap, sym, subst, ◌∙◌, ◌⊎◌, inl, inr, true, false, List, [],
  ◌∷◌, ◌++◌, length, length-append, length-drop, drop, ltb, if◌then◌else◌, arith, Bool-cases,
}
use ppmmx.Base.Float.{Float64}
use ppmmx.Abr.{
  Controller, new_controller, least_of, slide, observe_rtt, evaluate, reset, rtt_window_samples,
}
use ppmmx.Abr.Baseline.{IsMinimum, least_of-IsMinimum}
use ppmmx.Abr.Streaks.{Event, sampled, cleared, after, apply}

-- The last 30 elements of a list.
abbrev pub latest {ℓ} : {A : Type ℓ} → List A → List A
latest xs = drop (length xs - rtt_window_samples) xs

module _ {ℓ} {A : Type ℓ} where
  drop-append_left : (k : ℕ) (xs ys : List A) → k ≤ length xs → drop k (xs ++ ys) ≡ drop k xs ++ ys
  drop-append_left zero xs ys h = refl
  drop-append_left (suc k) [] ys h = absurd (omega arith)
  drop-append_left (suc k) (x ∷ xs) ys h = drop-append_left k xs ys (omega arith)

  drop-nil : (j : ℕ) → drop {A = A} j [] ≡ []
  drop-nil zero = refl
  drop-nil (suc j) = refl

  drop-drop : (j k : ℕ) (xs : List A) → drop j (drop k xs) ≡ drop (k + j) xs
  drop-drop j zero xs = ap (λ (n : ℕ). drop n xs) (omega arith)
  drop-drop j (suc k) [] = drop-nil j ∙ sym (drop-nil (suc k + j))
  drop-drop j (suc k) (x ∷ xs) =
      drop-drop j k xs
      ∙ ap (λ (n : ℕ). drop n (x ∷ xs)) {x = suc (k + j)} {y = suc k + j} (omega arith)

  latest-latest : (xs : List A) (x : A) → latest (latest xs ++ (x ∷ [])) ≡ latest (xs ++ (x ∷ []))
  latest-latest xs x =
      ap (λ (l : List A). drop j l) (sym (drop-append_left k xs (x ∷ []) (omega arith)))
      ∙ drop-drop j k (xs ++ (x ∷ []))
      ∙ ap (λ (n : ℕ). drop n (xs ++ (x ∷ []))) sum
    where
      k : ℕ
      k = length xs - rtt_window_samples

      j : ℕ
      j = length (latest xs ++ (x ∷ [])) - rtt_window_samples

      sum : k + j ≡ length (xs ++ (x ∷ [])) - rtt_window_samples
      sum =
          omega
            (arith, length-append xs (x ∷ []), length-append (latest xs) (x ∷ []), length-drop k xs)

  nonempty : (xs : List A) → 1 ≤ length xs → (y : A) × (ys : List A) × (xs ≡ y ∷ ys)
  nonempty [] h = absurd (omega arith)
  nonempty (x ∷ xs) h = (x, xs, refl)

module _ (F : Float64) where
  open F use {Carrier, literal, le}

  slide-latest :
      (window : List Carrier) (rtt : Carrier) → slide F window rtt ≡ latest (window ++ (rtt ∷ []))
  slide-latest window rtt =
      elim (Bool-cases (ltb rtt_window_samples (length (window ++ (rtt ∷ []))))) [
        | inl long ↦ rw long refl
        | inr short ↦
            rw short (ap (λ (n : ℕ). drop n (window ++ (rtt ∷ []))) {x = 0} (ground arith))
      ]

  abbrev pub hear : Event F → List Carrier → List Carrier
  hear (sampled ts loss rtt) heard_before =
      if le rtt (literal 0 0) then heard_before else heard_before ++ (rtt ∷ [])
  hear cleared heard_before = heard_before

  -- The positive round trips of all events, the oldest first.
  unfoldable pub heard : List (Event F) → List Carrier
  heard [] = []
  heard (e ∷ es) = hear e (heard es)

  -- The state of the round trips, given what was heard.
  pub record Hears (c : Controller F) (ws : List Carrier) : Type 0 where
    pub window : c.rtt_window ≡ latest ws
    pub minimum :
        ((c.have_rtt ≡ false) × (c.rtt_window ≡ []))
        ⊎ ((c.have_rtt ≡ true) × IsMinimum F c.rtt_min_ms c.rtt_window)

  slide-cons :
      (window : List Carrier) (rtt : Carrier)
      → (v : Carrier) × (vs : List Carrier) × (slide F window rtt ≡ v ∷ vs)
  slide-cons window rtt = nonempty (slide F window rtt) (
      omega (
        arith,
        ap (λ (l : List Carrier). length l) (slide-latest window rtt),
        length-drop (length (window ++ (rtt ∷ [])) - rtt_window_samples) (window ++ (rtt ∷ [])),
        length-append window (rtt ∷ []),
      ))

  observe-Hears :
      (c : Controller F) (ws : List Carrier) (rtt : Carrier)
      → Hears c ws
      → Hears (observe_rtt F c rtt) (if le rtt (literal 0 0) then ws else ws ++ (rtt ∷ []))
  unfolding observe_rtt
  observe-Hears c ws rtt h = elim (Bool-cases (le rtt (literal 0 0))) [
    | inl no_time ↦ rw no_time h
    | inr time ↦ rw time (record {
      window =
          slide-latest c.rtt_window rtt
          ∙ ap (λ (l : List Carrier). latest (l ++ (rtt ∷ []))) h.window
          ∙ latest-latest ws rtt;
      minimum = inr (
        refl,
        let (v, vs, e) = slide-cons c.rtt_window rtt in
            subst (λ (l : List Carrier). IsMinimum F (least_of F c.rtt_min_ms l) l) (sym e)
              (least_of-IsMinimum F c.rtt_min_ms v vs),
      );
    })
  ]

  keep_Hears :
      {c d : Controller F} {ws : List Carrier}
      → d.rtt_window ≡ c.rtt_window
      → d.rtt_min_ms ≡ c.rtt_min_ms
      → d.have_rtt ≡ c.have_rtt
      → Hears c ws
      → Hears d ws
  keep_Hears {c} {d} {ws} same_window same_min same_have h = record {
    window = same_window ∙ h.window;
    minimum = rw same_have (rw same_min (rw same_window h.minimum));
  }

  apply-Hears :
      (e : Event F) (c : Controller F) (ws : List Carrier)
      → Hears c ws
      → Hears (apply F e c) (hear e ws)
  unfolding evaluate reset
  apply-Hears (sampled ts loss rtt) c ws h =
      keep_Hears {c = observe_rtt F c rtt} (ground arith) (ground arith) (ground arith)
        (observe-Hears c ws rtt h)
  apply-Hears cleared c ws h = keep_Hears {c = c} refl refl refl h

  -- After any events, the window holds the last 30 positive round trips, resets or not, and
  -- `rttMinMs` is the least of them as soon as there is one, which is when `haveRTT` is true.
  pub after-Hears : (es : List (Event F)) → Hears (after F es) (heard es)
  unfolding after heard new_controller
  after-Hears [] = record { window = refl; minimum = inl (refl, refl) }
  after-Hears (e ∷ es) = apply-Hears e (after F es) (heard es) (after-Hears es)
