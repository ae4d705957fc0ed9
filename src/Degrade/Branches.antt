-- ===== src/Degrade/Branches.antt =====
-- What each branch of `recordSample` does to the timers and the layers, the float tests aside
-- (internal/degrade/degrade.go).
use ppmmx.Base.{
  ℕ, ◌+◌, ◌-◌, ◌≤◌, ◌<◌, ◌≡◌, ◌≢◌, refl, subst, leb-false, Bool, true, false, Option, none, some,
  List, [], leb, arith, ◌⊎◌, inl, inr, Bool-cases,
}
use ppmmx.Degrade.{
  State, Action, action_none, action_restart, action_recover, Effect, recover, degrade,
}
use ppmmx.Degrade.Sample.{on_loss, on_compliance, refresh, before}

-- One call of `Sample`: its two cumulative counters, and the time at which it is made.
pub record Reading : Type 0 where
  pub unrecov : ℕ
  pub total : ℕ
  pub now : ℕ

pub on_loss_cooling :
    (d : State) (now window : ℕ) (allow : Bool)
    → before now d.degrade_cooldown_until ≡ true
    → on_loss d now window allow ≡ (action_none, record d { good_since = none }, [])
unfolding on_loss
on_loss_cooling d now window allow h = rw h

pub on_compliance_since :
    (since : ℕ) (d : State) (now window : ℕ)
    → d.good_since ≡ some since
    → (((on_compliance (some since) d now window).0 ≡ action_recover) × (window ≤ now - since))
      ⊎ ((now - since < window)
          × ((on_compliance (some since) d now window).1.good_since ≡ some since))
unfolding on_compliance
on_compliance_since since d now window good = elim (Bool-cases (leb window (now - since))) [
  | inl up ↦ inl (rw up, ground arith)
  | inr more ↦ inr (ground arith, rw more good)
]

pub on_compliance_first :
    (since : Option ℕ) (d : State) (now window : ℕ)
    → since ≡ none
    → (on_compliance since d now window).1.good_since ≡ some now
unfolding on_compliance
on_compliance_first none d now window e = refl
on_compliance_first (some since) d now window e = cc

-- The state in which a sample that is not stale meets the thresholds.
abbrev pub counted : State → Reading → State
counted d r = record d {
  last_unrecov = r.unrecov;
  last_total = r.total;
  last_sample_at = some r.now;
}

-- The layers do not fall below `n`, and the answer is no restart.
abbrev pub Keeps : ℕ → Action × State × List Effect → Type 0
Keeps n s = (s.0 ≢ action_restart) × (n ≤ s.1.layers)

pub on_loss-Keeps :
    (n : ℕ) (d : State) (now window : ℕ) (allow : Bool)
    → n ≤ d.layers
    → allow ≡ false
    → Keeps n (on_loss d now window allow)
unfolding on_loss degrade
on_loss-Keeps n d now window allow le h = (ground arith, ground arith)

pub on_compliance-Keeps :
    (n : ℕ) (since : Option ℕ) (d : State) (now window : ℕ)
    → n ≤ d.layers
    → Keeps n (on_compliance since d now window)
unfolding on_compliance recover
on_compliance-Keeps n none d now window le = (ground arith, ground arith)
on_compliance-Keeps n (some since) d now window le = (ground arith, ground arith)

pub on_loss-timers :
    (d : State) (now window : ℕ) (allow : Bool)
    → ((on_loss d now window allow).1.good_since ≡ none)
      × (((on_loss d now window allow).0 ≡ action_none)
          ⊎ ((on_loss d now window allow).1.degrade_cooldown_until ≡ some (now + window)))
unfolding on_loss degrade
on_loss-timers d now window allow = ground arith

pub refresh-layers : (d : State) (now : ℕ) → d.layers ≤ (refresh d now).layers
refresh-layers d now = ground arith

-- The good stretch, if there is one, began at `start` or later.
abbrev pub BeganAt : ℕ → Option ℕ → Type 0
BeganAt start none = Unit {0}
BeganAt start (some since) = start ≤ since

abbrev pub Waits : ℕ → Action × State × List Effect → Type 0
Waits start s = (s.0 ≢ action_recover) × BeganAt start s.1.good_since

pub on_loss-Waits :
    (start : ℕ) (d : State) (now window : ℕ) (allow : Bool)
    → Waits start (on_loss d now window allow)
unfolding on_loss degrade
on_loss-Waits start d now window allow = (ground arith, ground arith)

pub on_compliance-Waits :
    (start : ℕ) (since : Option ℕ) (d : State) (now window : ℕ)
    → since ≡ d.good_since
    → BeganAt start since
    → start ≤ now
    → now < start + window
    → Waits start (on_compliance since d now window)
unfolding on_compliance
on_compliance-Waits start none d now window e h lo hi = ((λ p. cc), lo)
on_compliance-Waits start (some since) d now window e h lo hi =
    rw (leb-false window (now - since) (omega arith)) ((λ p. cc), subst (BeganAt start) e h)

pub refresh-good_none :
    (d : State) (now : ℕ) → d.good_since ≡ none → (refresh d now).good_since ≡ none
refresh-good_none d now h = ground arith

pub refresh-BeganAt :
    (start : ℕ) (d : State) (now : ℕ)
    → BeganAt start d.good_since
    → BeganAt start (refresh d now).good_since
refresh-BeganAt start d now h = ground arith
