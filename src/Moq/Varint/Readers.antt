-- ===== src/Moq/Varint/Readers.antt =====
-- internal/protocols/moq/varint/varint.go: `Read`, from a reader, against `Unmarshal`, from a buffer.
use ppmmx.Base.{
  ℕ, zero, suc, ◌+◌, ◌-◌, ◌≤◌, ◌<◌, ◌≡◌, ◌≢◌, refl, ap, sym, subst, ◌∙◌, ◌⊎◌, inl, inr, Bool, true,
  false, ◌&&◌, Option, none, some, List, [], ◌∷◌, length, take, drop, ltb, leb, ◌==◌, arith,
  Bool-cases,
}
use ppmmx.Moq.{
  Error, Result, ok, err, panic, not_enough_bytes, read_full, io_eof, io_unexpected_eof, ◌>>=◌,
}
use ppmmx.Moq.Varint.{
  size_of, value_of, unmarshal_sized, unmarshal, read_size, read_value, read_sized, read,
}
use ppmmx.Moq.Varint.Agreement.{read_size-size_of, read_value-value_of}
use ppmmx.Moq.Varint.Bytes.{holds_below, holds_below-at}

-- What `Read` answers on the bytes `r`, given the answer of `Unmarshal`.
unfoldable pub ReadsAs : List ℕ → Result (ℕ × ℕ) → Result (ℕ × List ℕ) → Type 0
ReadsAs r (ok (v, n)) x = (x ≡ ok (v, drop n r)) × (n ≤ length r)
ReadsAs r (err e) x =
    (x ≡ err e) ⊎ (e ≡ not_enough_bytes) × ((x ≡ err io_eof) ⊎ (x ≡ err io_unexpected_eof))
ReadsAs r panic x = x ≡ panic

read_first_byte : (b : ℕ) (others : List ℕ) → read (b ∷ others) ≡ read_sized (read_size b) b others
unfolding read read_full
read_first_byte b others = ground arith

drop_after :
    (size : ℕ) (b : ℕ) (others : List ℕ)
    → 1 ≤ size
    → drop size (b ∷ others) ≡ drop (size - 1) others
drop_after zero b others h = absurd (omega arith)
drop_after (suc n) b others h = ap (λ (k : ℕ). drop k others) (omega arith)

read_full-short :
    (n : ℕ) (r : List ℕ)
    → length r < n
    → (read_full n r ≡ err io_eof) ⊎ (read_full n r ≡ err io_unexpected_eof)
unfolding read_full
read_full-short n r h = ground arith

read_full-enough : (n : ℕ) (r : List ℕ) → n ≤ length r → read_full n r ≡ ok (take n r, drop n r)
unfolding read_full
read_full-enough n r h = ground arith

by_answers :
    (r : List ℕ) {u u' : Result (ℕ × ℕ)} {x x' : Result (ℕ × List ℕ)}
    → u ≡ u'
    → x ≡ x'
    → ReadsAs r u' x'
    → ReadsAs r u x
by_answers r {u} {u'} {x} {x'} p q h =
    subst (λ t. ReadsAs r t x) (sym p) (subst (ReadsAs r u') (sym q) h)

length-take : (n : ℕ) (xs : List ℕ) → n ≤ length xs → length (take n xs) ≡ n
length-take zero xs h = refl
length-take (suc n) [] h = absurd (omega arith)
length-take (suc n) (x ∷ xs) h = ap suc (length-take n xs (omega arith))

-- What `Read` joins from two bytes on, if it reads all of them, is what `Unmarshal` joins.
read_value-same :
    (n b : ℕ) (rest : List ℕ)
    → n ≤ 7
    → length rest ≡ suc n
    → read_value (suc (suc n)) b rest ≡ value_of (suc (suc n)) b rest
read_value-same n b [] low e = absurd (omega arith)
read_value-same n b (x ∷ xs) low e =
    subst (λ (k : ℕ). read_value (suc (suc k)) b (x ∷ xs) ≡ value_of (suc (suc k)) b (x ∷ xs))
      (suc_inj e) (read_value-value_of b x xs (omega arith))
  where
    suc_inj : {a c : ℕ} → suc a ≡ suc c → a ≡ c
    suc_inj e = omega arith

-- Two bytes or more are announced, of which one is there.
module _ (n b : ℕ) (others : List ℕ) (low : n ≤ 7) where
  wanted : ℕ
  wanted = suc (suc n) - 1

  one_less : wanted ≡ suc n
  unfolding wanted
  one_less = omega arith

  joined : List ℕ × List ℕ → Result (ℕ × List ℕ)
  joined p = ok (read_value (suc (suc n)) b p.0, p.1)

  read_from : read_sized (some (suc (suc n))) b others ≡ read_full wanted others >>= joined
  unfolding wanted joined
  read_from = ground arith

  read_short :
      (e : Error)
      → read_full wanted others ≡ err e
      → read_sized (some (suc (suc n))) b others ≡ err e
  read_short e p = read_from ∙ ap (λ t. t >>= joined) p

  read_whole :
      wanted ≤ length others
      → read_sized (some (suc (suc n))) b others
        ≡ ok (read_value (suc (suc n)) b (take wanted others), drop wanted others)
  unfolding joined
  read_whole h = read_from ∙ ap (λ t. t >>= joined) (read_full-enough wanted others h)

  by_whole :
      wanted ≤ length others
      → unmarshal_sized (some (suc (suc n))) b others
        ≡ ok (value_of (suc (suc n)) b (take wanted others), suc (suc n))
  unfolding wanted
  by_whole h = ground arith

  same_value :
      wanted ≤ length others
      → read_value (suc (suc n)) b (take wanted others)
        ≡ value_of (suc (suc n)) b (take wanted others)
  same_value h =
      read_value-same n b (take wanted others) low (length-take wanted others h ∙ one_less)

  more_reads :
      ReadsAs
        (b ∷ others)
        (unmarshal_sized (some (suc (suc n))) b others)
        (read_sized (some (suc (suc n))) b others)
  unfolding ReadsAs wanted
  more_reads = elim (Bool-cases (ltb (length others) (suc n))) [
    | inr enough ↦
        by_answers (b ∷ others)
          {u' = ok (read_value (suc (suc n)) b (take wanted others), suc (suc n))}
          (by_whole (ground arith)
            ∙ ap (λ (v : ℕ). ok (v, suc (suc n))) (sym (same_value (ground arith))))
          (read_whole (ground arith))
          (
            ap (λ (k : ℕ). ok (read_value (suc (suc n)) b (take wanted others), drop k others))
                one_less,
            ground arith,
          )
    | inl short ↦ elim (read_full-short wanted others (ground arith)) [
      | inl eof ↦
          by_answers (b ∷ others) {u' = err not_enough_bytes} (ground arith) (read_short io_eof eof)
            (inr (refl, inl refl))
      | inr eof ↦
          by_answers (b ∷ others) {u' = err not_enough_bytes} (ground arith)
            (read_short io_unexpected_eof eof) (inr (refl, inr refl))
    ]
  ]

-- A size of 1 to 9 bytes, or none.
abbrev IsSize : Option ℕ → Type 0
IsSize none = Unit
IsSize (some n) = (1 ≤ n) × (n ≤ 9)

sized_reads :
    (o : Option ℕ) (b : ℕ) (others : List ℕ)
    → IsSize o
    → ReadsAs (b ∷ others) (unmarshal_sized o b others) (read_sized o b others)
unfolding ReadsAs read_full
sized_reads none b others pos = inl refl
sized_reads (some zero) b others pos = absurd (omega (arith, pos.0))
sized_reads (some (suc zero)) b others pos = (refl, omega arith)
sized_reads (some (suc (suc n))) b others pos = more_reads n b others (omega (arith, pos.1))

pub size_of-pos : (b : ℕ) → size_of b ≢ some 0
unfolding size_of
size_of-pos b = ground arith

size_of-IsSize : (b : ℕ) → IsSize (size_of b)
unfolding size_of
size_of-IsSize b = ground arith

-- On all bytes `Read` answers as `Unmarshal` does: the same value, with the reader left behind the
-- bytes that `Unmarshal` counts, of which there are enough; the same error, save that io.EOF or
-- io.ErrUnexpectedEOF stands for "not enough bytes".
pub read-ReadsAs : (r : List ℕ) → ReadsAs r (unmarshal r) (read r)
unfolding unmarshal ReadsAs read read_full
read-ReadsAs [] = inr (refl, inl refl)
read-ReadsAs (b ∷ others) =
    subst (ReadsAs (b ∷ others) (unmarshal_sized (size_of b) b others))
      (sym (
        read_first_byte b others
        ∙ ap (λ (o : Option ℕ). read_sized o b others) (read_size-size_of b)))
      (sized_reads (size_of b) b others (size_of-IsSize b))

abbrev sized : Option ℕ → Bool
sized none = false
sized (some n) = leb 1 n && leb n 9

sized-some : (o : Option ℕ) → sized o ≡ true → (n : ℕ) × (o ≡ some n) × (1 ≤ n) × (n ≤ 9)
sized-some none h = cc
sized-some (some n) h = (n, refl, ground arith, ground arith)

size_of-some : (b : ℕ) → b < 256 → (n : ℕ) × (size_of b ≡ some n) × (1 ≤ n) × (n ≤ 9)
unfolding holds_below size_of
size_of-some b h = sized-some (size_of b) (holds_below-at 256 (λ x. sized (size_of x)) b h refl)

-- What the first byte `b` announces of the buffer `b ∷ others`: a size from 1 to 9.
unfoldable pub Announces : ℕ → List ℕ → ℕ → Type 0
Announces b others n =
    (1 ≤ n)
    × (n ≤ 9)
    × (length others + 1 < n → unmarshal (b ∷ others) ≡ err not_enough_bytes)
    × (n ≤ length others + 1 → (v : ℕ) × (unmarshal (b ∷ others) ≡ ok (v, n)))

sized_answers :
    (n b : ℕ) (others : List ℕ)
    → n ≤ length others + 1
    → (v : ℕ) × (unmarshal_sized (some n) b others ≡ ok (v, n))
sized_answers n b others h = elim (Bool-cases (n == 1)) [
  | inl one ↦ (b, ground arith)
  | inr more ↦ (value_of n b (take (n - 1) others), ground arith)
]

-- For a first byte below 256 there is a size from 1 to 9, such that a buffer shorter
-- than it is refused with "not enough bytes", and any other gives a value with that size. So the
-- error "unsupported varint prefix" is never given.
pub unmarshal-Announces :
    (b : ℕ) (others : List ℕ) → b < 256 → (n : ℕ) × (size_of b ≡ some n) × Announces b others n
unfolding unmarshal Announces
unmarshal-Announces b others h =
    let (n, s, low, high) = size_of-some b h in
    (n, s, (low, high, λ short. rw s (ground arith), λ long. rw s (sized_answers n b others long)))
