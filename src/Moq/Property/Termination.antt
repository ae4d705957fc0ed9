-- ===== src/Moq/Property/Termination.antt =====
-- internal/protocols/moq/property: each round of `Properties.Unmarshal` takes a byte, so the fuel of
-- the model is enough.
use ppmmx.Base.{
  ℕ, zero, suc, ◌+◌, ◌%◌, ◌^◌, ◌≤◌, ◌<◌, ◌≡◌, ◌≢◌, refl, ap, sym, subst, ◌∙◌, ◌⊎◌, inl, inr, Bool,
  true, false, Option, none, some, List, [], ◌∷◌, ◌==◌, if◌then◌else◌, length, length-drop, drop,
  arith,
}
use ppmmx.Base.Int.{ℤ, pos, negsuc, ◌+ℤ◌, ◌-ℤ◌, ltb_ℤ}
use ppmmx.Moq.{Error, Result, ok, err, panic, ◌>>=◌, int_of, slice_from, not_enough_for_property}
use ppmmx.Moq.Varint.{unmarshal, size_of, unmarshal_sized}
use ppmmx.Moq.Varint.Readers.{size_of-pos}
use ppmmx.Moq.Property.{
  Property, timestamp_type, Round, by_type, read_timestamp, skip_bytes, skip_number, round, follow,
  found_before, after_round, loop, unmarshal_properties,
}

panic_differs {ℓ} : {A : Type ℓ} (a : A) → panic ≢ ok a
panic_differs a h = cc

bind-ok {ℓ κ} :
    {A : Type ℓ} {B : Type κ} (x : Result A) (f : A → Result B) (b : B)
    → (x >>= f) ≡ ok b
    → (a : A) × (x ≡ ok a) × (f a ≡ ok b)
bind-ok (ok a) f b h = (a, refl, h)
bind-ok (err e) f b h = cc
bind-ok panic f b h = cc

drop_shrinks : (n : ℕ) (buf : List ℕ) → length (drop n buf) ≤ length buf
drop_shrinks n buf = omega (arith, length-drop n buf)

ok_injective {ℓ} : {A : Type ℓ} (a b : A) → ok a ≡ ok b → a ≡ b
ok_injective a b h = cc

slice_from-cases :
    (buf : List ℕ) (n : ℕ)
    → (slice_from buf (pos n) ≡ ok (drop n buf)) ⊎ (slice_from buf (pos n) ≡ panic)
unfolding slice_from
slice_from-cases buf n = ground arith

slice_from-shrinks :
    (buf : List ℕ) (from : ℤ) (left : List ℕ)
    → slice_from buf from ≡ ok left
    → length left ≤ length buf
unfolding slice_from
slice_from-shrinks buf (pos n) left h = elim (slice_from-cases buf n) [
  | inl e ↦
      subst (λ (l : List ℕ). length l ≤ length buf) (ok_injective (drop n buf) left (sym e ∙ h))
        (drop_shrinks n buf)
  | inr e ↦ absurd (panic_differs left (sym e ∙ h))
]
slice_from-shrinks buf (negsuc k) left h = absurd (panic_differs left h)

unmarshal_sized-pos :
    (o : Option ℕ) (b v n : ℕ) (others : List ℕ)
    → o ≢ some 0
    → unmarshal_sized o b others ≡ ok (v, n)
    → 1 ≤ n
unmarshal_sized-pos none b v n others h e = cc
unmarshal_sized-pos (some zero) b v n others h e = absurd (h refl)
unmarshal_sized-pos (some (suc size)) b v n others h e = ground arith

-- A buffer that is left over is not longer.
abbrev Shrinks : List ℕ → Result Round → Type 0
Shrinks buf x = (r : Round) → x ≡ ok r → length r.left ≤ length buf

number-Shrinks :
    (p : Option Property) (t n : ℕ) (buf : List ℕ)
    → Shrinks buf (ok (record { found = p; current_type = t; left = drop n buf }))
number-Shrinks p t n buf r h =
    subst (λ (x : Round). length x.left ≤ length buf) (ok_injective _ r h) (drop_shrinks n buf)

read_timestamp-Shrinks : (t : ℕ) (buf : List ℕ) → Shrinks buf (read_timestamp t buf)
read_timestamp-Shrinks t buf r h =
    let (p, e, k) = bind-ok (unmarshal buf) _ r h in number-Shrinks _ t p.1 buf r k

skip_number-Shrinks : (t : ℕ) (buf : List ℕ) → Shrinks buf (skip_number t buf)
skip_number-Shrinks t buf r h =
    let (p, e, k) = bind-ok (unmarshal buf) _ r h in number-Shrinks _ t p.1 buf r k

if-Shrinks :
    (c : Bool) (buf : List ℕ) (x y : Result Round)
    → Shrinks buf x
    → Shrinks buf y
    → Shrinks buf (if c then x else y)
if-Shrinks true buf x y h k = h
if-Shrinks false buf x y h k = k

err-Shrinks : (e : Error) (buf : List ℕ) → Shrinks buf (err e)
err-Shrinks e buf r h = cc

sliced-Shrinks :
    (t : ℕ) (buf : List ℕ) (from : ℤ)
    → Shrinks buf (
        slice_from buf from >>= λ (left : List ℕ).
        ok (record { found = none; current_type = t; left = left }))
sliced-Shrinks t buf from r h =
    let (left, e, k) = bind-ok (slice_from buf from) _ r h in
    subst (λ (x : Round). length x.left ≤ length buf) (ok_injective _ r k)
      (slice_from-shrinks buf from left e)

skip_bytes-Shrinks : (t : ℕ) (buf : List ℕ) → Shrinks buf (skip_bytes t buf)
unfolding skip_bytes
skip_bytes-Shrinks t buf r h =
    let (p, e, k) = bind-ok (unmarshal buf) _ r h in
    if-Shrinks (ltb_ℤ (pos (length buf) -ℤ pos p.1) (int_of p.0)) buf _ _
      (err-Shrinks not_enough_for_property buf) (sliced-Shrinks t buf (pos p.1 +ℤ int_of p.0)) r k

by_type-Shrinks : (t : ℕ) (buf : List ℕ) → Shrinks buf (by_type t buf)
by_type-Shrinks t buf =
    if-Shrinks (t == timestamp_type) buf (read_timestamp t buf) _ (read_timestamp-Shrinks t buf) (
      if-Shrinks (t % 2 == 1) buf (skip_bytes t buf) (skip_number t buf) (skip_bytes-Shrinks t buf)
        (skip_number-Shrinks t buf))

unmarshal-pos : (b v n : ℕ) (others : List ℕ) → unmarshal (b ∷ others) ≡ ok (v, n) → 1 ≤ n
unfolding unmarshal
unmarshal-pos b v n others h = unmarshal_sized-pos (size_of b) b v n others (size_of-pos b) h

round-progress :
    (t b : ℕ) (bs : List ℕ) (r : Round) → round t (b ∷ bs) ≡ ok r → length r.left ≤ length bs
unfolding round
round-progress t b bs r h =
    let (p, e, k) = bind-ok (unmarshal (b ∷ bs)) _ r h in
    omega (
      arith,
      by_type-Shrinks ((t + p.0) % 2 ^ 64) (drop p.1 (b ∷ bs)) r k,
      length-drop p.1 (b ∷ bs),
      unmarshal-pos b p.0 p.1 bs e,
    )

abbrev pub Ends : Option (Result (List Property)) → Type 0
Ends o = (r : Result (List Property)) × (o ≡ some r)

follow-Ends :
    (p : Option Property) (o : Option (Result (List Property))) → Ends o → Ends (follow p o)
follow-Ends p o (r, e) = (found_before p r, ap (follow p) e)

after_round-Ends :
    (x : Result Round) (go_on : Round → Option (Result (List Property)))
    → ((r : Round) → x ≡ ok r → Ends (go_on r))
    → Ends (after_round x go_on)
after_round-Ends (ok r) go_on h = h r refl
after_round-Ends (err e) go_on h = (err e, refl)
after_round-Ends panic go_on h = (panic, refl)

loop-Ends : (fuel t : ℕ) (buf : List ℕ) → length buf < fuel → Ends (loop fuel t buf)
unfolding loop
loop-Ends zero t buf h = absurd (omega arith)
loop-Ends (suc fuel) t [] h = (ok [], refl)
loop-Ends (suc fuel) t (b ∷ bs) h = after_round-Ends (round t (b ∷ bs)) _ (λ r e.
    follow-Ends r.found (loop fuel r.current_type r.left)
      (loop-Ends fuel r.current_type r.left (omega (arith, round-progress t b bs r e))))

-- On all bytes, with a round for each of them and one more, the loop of `Unmarshal` ends, with
-- properties, an error or a panic.
pub unmarshal_properties-Ends : (buf : List ℕ) → Ends (unmarshal_properties buf)
unfolding unmarshal_properties
unmarshal_properties-Ends buf = loop-Ends (suc (length buf)) 0 buf (omega arith)
