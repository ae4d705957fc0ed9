-- ===== src/Selector/Completion.antt =====
-- How a switch requested of internal/protocols/webrtc/track_selector.go comes to its end.
use ppmmx.Base.{ℕ, ◌+◌, ◌≤◌, ◌≡◌, refl, ◌∙◌, true, false, ◌&&◌, List, [], ◌∷◌, All, arith}
use ppmmx.Base.Int.{ℤ, pos, negsuc, eqb_ℤ}
use ppmmx.Selector.{TrackSelector, pending_timeout, has_video, select, on_access_unit}
use ppmmx.Selector.Switching.{
  Event, selected, access_unit, dimensions, step, final, dimensions-keep, step-passthrough,
}

-- An access unit that arrives in time and does not complete the switch to `target`.
abbrev pub Waiting : ℤ → ℕ → Event → Type 0
Waiting target since (selected id now) = ⊥
Waiting target since (access_unit id keyframe now) =
    ((eqb_ℤ id target && keyframe) ≡ false) × (now ≤ since + pending_timeout)
Waiting target since (dimensions id w h) = Unit {0}

step-Waiting :
    (ts : TrackSelector) (e : Event) (target : ℤ) (since : ℕ)
    → ts.passthrough ≡ false
    → ts.pending_id ≡ target
    → ts.pending_at ≡ since
    → Waiting target since e
    → ((step ts e).active_id ≡ ts.active_id)
      × ((step ts e).pending_id ≡ target)
      × ((step ts e).pending_at ≡ since)
unfolding step
step-Waiting ts (selected id now) target since off p at w = absurd w
step-Waiting ts (access_unit id keyframe now) target since off p at w =
    unfold on_access_unit in ground arith
step-Waiting ts (dimensions id w h) target since off p at wait =
    let (active, pending, stamp, pass) = dimensions-keep ts id w h in
    (active, pending ∙ p, stamp ∙ at)

final-Waiting :
    (ts : TrackSelector) (es : List Event) (target : ℤ) (since : ℕ)
    → ts.passthrough ≡ false
    → ts.pending_id ≡ target
    → ts.pending_at ≡ since
    → All (Waiting target since) es
    → ((final ts es).active_id ≡ ts.active_id)
      × ((final ts es).pending_id ≡ target)
      × ((final ts es).passthrough ≡ false)
unfolding final
final-Waiting ts [] target since off p stamp wait = (refl, p, off)
final-Waiting ts (e ∷ es) target since off p stamp wait =
    let (active, pending, at) = step-Waiting ts e target since off p stamp wait.0 in
    let (active', pending', off') =
      final-Waiting (step ts e) es target since (step-passthrough ts e off) pending at wait.1 in
    (active' ∙ active, pending', off')

select_pends :
    (ts : TrackSelector) (target : ℤ) (now : ℕ)
    → ts.passthrough ≡ false
    → has_video target ts.tracks ≡ true
    → eqb_ℤ target ts.active_id ≡ false
    → select ts target now ≡ (true, record ts { pending_id = target; pending_at = now }, [])
unfolding select
select_pends ts target now off known other = rw (known, other, off)

completes :
    (u : TrackSelector) (n now : ℕ)
    → u.passthrough ≡ false
    → u.pending_id ≡ pos n
    → on_access_unit u (pos n) true now ≡ record {
      should_forward = true;
      switched = true;
      selector = record u { active_id = pos n; pending_id = negsuc 0 };
      notified = (u.active_id, pos n) ∷ [];
    }
unfolding on_access_unit
completes u n now off p = ground arith

-- A requested switch completes. Let the pass-through mode be off and another video track than the
-- active one be selected, and let the access units that follow come within the timeout, none of
-- them a keyframe of that track. Then the active track has stayed, and the first keyframe of the
-- selected track is forwarded, makes it the active one, leaves nothing pending, and is the one
-- that is notified.
pub select_completes :
    (ts : TrackSelector) (n since : ℕ) (es : List Event) (now : ℕ)
    → ts.passthrough ≡ false
    → has_video (pos n) ts.tracks ≡ true
    → eqb_ℤ (pos n) ts.active_id ≡ false
    → All (Waiting (pos n) since) es
    → let u = final (select ts (pos n) since).1 es in
      let a = on_access_unit u (pos n) true now in
      (u.active_id ≡ ts.active_id)
      × (a.should_forward ≡ true)
      × (a.switched ≡ true)
      × (a.selector.active_id ≡ pos n)
      × (a.selector.pending_id ≡ negsuc 0)
      × (a.notified ≡ (ts.active_id, pos n) ∷ [])
select_completes ts n since es now off known other wait =
    let start : TrackSelector = record ts { pending_id = pos n; pending_at = since } in
    let (active, pending, off') = final-Waiting start es (pos n) since off refl refl wait in
    rw (select_pends ts (pos n) since off known other) (
      rw (completes (final start es) n now off' pending)
        (rw active (refl, refl, refl, refl, refl, refl)))
