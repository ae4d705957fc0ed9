-- ===== src/Abr/Ladder.antt =====
-- internal/servers/webrtc/abr_controller.go: the ladder of the video tracks, and one step on it.
use ppmmx.Base.{
  ℕ, zero, suc, ◌≤◌, ◌≡◌, refl, ap, sym, subst, ◌∙◌, inl, inr, true, false, Option, none, some,
  List, [], ◌∷◌, get_elem?, All, leb, arith, Bool-cases,
}
use ppmmx.Base.Int.{ℤ, pos, negsuc, ◌+ℤ◌, eqb_ℤ, eqb_ℤ_iff}
use ppmmx.Selector.{TrackInfo, is_video}
use ppmmx.Abr.{insert, video_ladder, index_of, next_index, id_of, id_at, step_from, step}

-- No track of the list has a bitrate below `b`.
abbrev pub AtLeast : ℕ → List TrackInfo → Type 0
AtLeast b ts = All (λ (t : TrackInfo). b ≤ t.bitrate) ts

unfoldable pub IsSorted : List TrackInfo → Type 0
IsSorted [] = Unit
IsSorted (t ∷ ts) = AtLeast t.bitrate ts × IsSorted ts

AtLeast-weaken : (a b : ℕ) (ts : List TrackInfo) → a ≤ b → AtLeast b ts → AtLeast a ts
AtLeast-weaken a b [] h k = tt
AtLeast-weaken a b (t ∷ ts) h (k, ks) = (omega arith, AtLeast-weaken a b ts h ks)

insert-AtLeast :
    (b : ℕ) (t : TrackInfo) (ts : List TrackInfo)
    → b ≤ t.bitrate
    → AtLeast b ts
    → AtLeast b (insert t ts)
unfolding insert
insert-AtLeast b t [] h k = (h, tt)
insert-AtLeast b t (u ∷ us) h (k, ks) = elim (Bool-cases (leb t.bitrate u.bitrate)) [
  | inl first ↦ rw first (h, (k, ks))
  | inr later ↦ rw later (k, insert-AtLeast b t us h ks)
]

insert-IsSorted : (t : TrackInfo) (ts : List TrackInfo) → IsSorted ts → IsSorted (insert t ts)
unfolding insert IsSorted
insert-IsSorted t [] h = (tt, tt)
insert-IsSorted t (u ∷ us) (h, hs) = elim (Bool-cases (leb t.bitrate u.bitrate)) [
  | inl first ↦
      rw first ((ground arith, AtLeast-weaken t.bitrate u.bitrate us (ground arith) h), (h, hs))
  | inr later ↦ rw later (insert-AtLeast u.bitrate t us (ground arith) h, insert-IsSorted t us hs)
]

pub video_ladder-IsSorted : (ts : List TrackInfo) → IsSorted (video_ladder ts)
unfolding video_ladder IsSorted
video_ladder-IsSorted [] = tt
video_ladder-IsSorted (t ∷ ts) = elim (Bool-cases (is_video t.track_type)) [
  | inl shown ↦ rw shown (insert-IsSorted t (video_ladder ts) (video_ladder-IsSorted ts))
  | inr skipped ↦ rw skipped (video_ladder-IsSorted ts)
]

pub data Direction : Type 0 where
  down up : Direction

abbrev pub delta : Direction → ℤ
delta down = negsuc 0
delta up = pos 1

abbrev pub origin : Direction → ℕ → ℕ
origin down i = suc i
origin up i = i

abbrev pub target : Direction → ℕ → ℕ
target down i = i
target up i = suc i

-- The rungs `i` and `i + 1` of the ladder, between which a step leads from `active` to `id`.
pub record Rungs (ladder : List TrackInfo) (active : ℤ) (id : ℕ) (d : Direction) : Type 0 where
  pub i : ℕ
  pub from : TrackInfo
  pub to : TrackInfo
  pub is_from : get_elem? ladder (origin d i) ≡ some from
  pub is_to : get_elem? ladder (target d i) ≡ some to
  pub from_active : pos from.id ≡ active
  pub to_id : to.id ≡ id

next_index-some :
    (o : Option ℕ) (i : ℕ) → next_index o ≡ some i → (j : ℕ) × (o ≡ some j) × (suc j ≡ i)
next_index-some none i h = cc
next_index-some (some j) i h = (j, refl, ground arith)

some_injective {ℓ} : {A : Type ℓ} (a b : A) → some a ≡ some b → a ≡ b
some_injective a b h = cc

abbrev IsRung : List TrackInfo → ℤ → ℕ → Type 0
IsRung ladder active i = (t : TrackInfo) × (get_elem? ladder i ≡ some t) × (pos t.id ≡ active)

index_of-some :
    (ladder : List TrackInfo) (active : ℤ) (i : ℕ)
    → index_of ladder active ≡ some i
    → IsRung ladder active i
unfolding index_of
index_of-some [] active i h = cc
index_of-some (t ∷ ts) active i h = elim (Bool-cases (eqb_ℤ (pos t.id) active)) [
  | inl found ↦
      subst (IsRung (t ∷ ts) active) (some_injective 0 i (first found))
        (t, refl, (eqb_ℤ_iff (pos t.id) active).0 found)
  | inr other ↦
      let (j, at_j, e) = next_index-some (index_of ts active) i (later other) in
      subst (IsRung (t ∷ ts) active) e (index_of-some ts active j at_j)
]
  where
    first : eqb_ℤ (pos t.id) active ≡ true → some 0 ≡ some i
    first found = ground arith

    later : eqb_ℤ (pos t.id) active ≡ false → next_index (index_of ts active) ≡ some i
    later other = ground arith

id_of-some :
    (o : Option TrackInfo) (id : ℕ)
    → id_of o ≡ some id
    → (t : TrackInfo) × (o ≡ some t) × (t.id ≡ id)
id_of-some none id h = cc
id_of-some (some t) id h = (t, refl, ground arith)

one_down : (i : ℕ) → pos (suc i) +ℤ negsuc 0 ≡ pos i
unfolding ◌+ℤ◌
one_down i = ground arith

one_up : (i : ℕ) → pos i +ℤ pos 1 ≡ pos (suc i)
unfolding ◌+ℤ◌
one_up i = ground arith

-- The id at the index that a step leads to.
rung-Rungs :
    (ladder : List TrackInfo) (active : ℤ) (id : ℕ) (d : Direction) (i : ℕ)
    → IsRung ladder active (origin d i)
    → id_of (get_elem? ladder (target d i)) ≡ some id
    → Rungs ladder active id d
rung-Rungs ladder active id d i (from, is_from, from_active) h =
    let (to, is_to, to_id) = id_of-some (get_elem? ladder (target d i)) id h in
    record {
      i = i;
      from = from;
      to = to;
      is_from = is_from;
      is_to = is_to;
      from_active = from_active;
      to_id = to_id;
    }

step_from-Rungs :
    (ladder : List TrackInfo) (active : ℤ) (id : ℕ) (d : Direction) (o : Option ℕ)
    → index_of ladder active ≡ o
    → step_from ladder o (delta d) ≡ some id
    → Rungs ladder active id d
unfolding ◌+ℤ◌
step_from-Rungs ladder active id d none e h = cc
step_from-Rungs ladder active id down (some zero) e h = cc
step_from-Rungs ladder active id down (some (suc i)) e h =
    rung-Rungs ladder active id down i (index_of-some ladder active (suc i) e)
      (sym (ap (id_at ladder) (one_down i)) ∙ h)
step_from-Rungs ladder active id up (some i) e h =
    rung-Rungs ladder active id up i (index_of-some ladder active i e)
      (sym (ap (id_at ladder) (one_up i)) ∙ h)

AtLeast-get_elem? :
    (b : ℕ) (ts : List TrackInfo) (i : ℕ) (t : TrackInfo)
    → AtLeast b ts
    → get_elem? ts i ≡ some t
    → b ≤ t.bitrate
AtLeast-get_elem? b [] i t h e = cc
AtLeast-get_elem? b (u ∷ us) zero t (h, hs) e =
    subst (λ (x : TrackInfo). b ≤ x.bitrate) (some_injective u t e) h
AtLeast-get_elem? b (u ∷ us) (suc i) t (h, hs) e = AtLeast-get_elem? b us i t hs e

sorted_rungs :
    (ts : List TrackInfo) (i : ℕ) (low high : TrackInfo)
    → IsSorted ts
    → get_elem? ts i ≡ some low
    → get_elem? ts (suc i) ≡ some high
    → low.bitrate ≤ high.bitrate
unfolding IsSorted
sorted_rungs [] i low high h a b = cc
sorted_rungs (t ∷ ts) zero low high (h, hs) a b =
    subst (λ (x : TrackInfo). x.bitrate ≤ high.bitrate) (some_injective t low a)
      (AtLeast-get_elem? t.bitrate ts zero high h b)
sorted_rungs (t ∷ ts) (suc i) low high (h, hs) a b = sorted_rungs ts i low high hs a b

-- A step down leads to a bitrate that is not higher, a step up to one that is not lower.
abbrev pub Ordered : Direction → TrackInfo → TrackInfo → Type 0
Ordered down from to = to.bitrate ≤ from.bitrate
Ordered up from to = from.bitrate ≤ to.bitrate

Rungs-Ordered :
    (ladder : List TrackInfo) (active : ℤ) (id : ℕ) (d : Direction)
    → IsSorted ladder
    → (r : Rungs ladder active id d) → Ordered d r.from r.to
Rungs-Ordered ladder active id down h r = sorted_rungs ladder r.i r.to r.from h r.is_to r.is_from
Rungs-Ordered ladder active id up h r = sorted_rungs ladder r.i r.from r.to h r.is_from r.is_to

-- When a step over the ladder of some tracks gives an id, the active track and the track of that
-- id stand next to each other in the ladder, the new one below the other for -1 and above it for
-- +1, with a bitrate that is not higher, or not lower.
pub step-Rungs :
    (ts : List TrackInfo) (active : ℤ) (id : ℕ) (d : Direction)
    → step (video_ladder ts) active (delta d) ≡ some id
    → (r : Rungs (video_ladder ts) active id d) × Ordered d r.from r.to
unfolding step
step-Rungs ts active id d h =
    let ladder : List TrackInfo = video_ladder ts in
    let r : Rungs ladder active id d =
      step_from-Rungs ladder active id d (index_of ladder active) refl h in
    (r, Rungs-Ordered ladder active id d (video_ladder-IsSorted ts) r)
