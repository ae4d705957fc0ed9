-- ===== src/PauseState/Branches.antt =====
-- internal/protocols/webrtc/media_state.go: what a test decides, with what it says in each branch.
use ppmmx.Base.{◌≡◌, refl, Bool, true, false, if◌then◌else◌}
use ppmmx.PauseState.{MediaState}

-- What holds of the state and of the answer.
abbrev pub Both : (MediaState → Type 0) → Bool → MediaState × Bool → Type 0
Both P answer o = P o.0 × (o.1 ≡ answer)

pub if-Both :
    (P : MediaState → Type 0) (answer b : Bool) (x y : MediaState × Bool)
    → (b ≡ true → Both P answer x)
    → (b ≡ false → Both P answer y)
    → Both P answer (if b then x else y)
if-Both P answer true x y h k = h refl
if-Both P answer false x y h k = k refl

pub if-Holds :
    (P : MediaState → Type 0) (b : Bool) (x y : MediaState × Bool)
    → (b ≡ true → P x.0)
    → (b ≡ false → P y.0)
    → P (if b then x else y).0
if-Holds P true x y h k = h refl
if-Holds P false x y h k = k refl

pub if-State :
    (P : MediaState → Type 0) (b : Bool) (x y : MediaState)
    → (b ≡ true → P x)
    → (b ≡ false → P y)
    → P (if b then x else y)
if-State P true x y h k = h refl
if-State P false x y h k = k refl
