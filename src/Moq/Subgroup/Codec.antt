-- ===== src/Moq/Subgroup/Codec.antt =====
-- internal/protocols/moq/subgroup: what `SubGroup.Marshal` writes, read again.
use ppmmx.Base.{
  ℕ, ◌^◌, ◌≤◌, ◌<◌, ◌≡◌, refl, ap, sym, subst, ◌∙◌, ◌⊎◌, inl, inr, Bool, true, false, List, [], ◌∷◌,
  ◌++◌, All, append_assoc, ◌==◌, length, length-append, take-append, drop-append, le→leb, ge→ltb,
  arith,
}
use ppmmx.Moq.{Result, ok, ◌>>=◌, IsU64, read_full}
use ppmmx.Moq.Varint.{read, marshal, low_bytes}
use ppmmx.Moq.Varint.Codec.{unmarshal-marshal}
use ppmmx.Moq.Varint.Readers.{ReadsAs, read-ReadsAs}
use ppmmx.Moq.Property.{Property, marshal_properties, properties_size, marshal_from, size_from}
use ppmmx.Moq.Property.Codec.{
  IsProperty, fewer, unmarshal_properties-marshal, length-marshal_properties,
}
use ppmmx.Moq.Subgroup.{
  Header, Object, SubGroup, max_payload_size, header_of, read_header, stream_type, marshal_header,
  decoded, read_properties, read_some_properties, read_payload, read_object, read_subgroup,
  marshal_object_properties, marshal_payload, marshal_object, marshal_objects, marshal_subgroup,
  last_object,
}

pub read-marshal : (v : ℕ) (rest : List ℕ) → IsU64 v → read (marshal v ++ rest) ≡ ok (v, rest)
unfolding ReadsAs
read-marshal v rest h =
    (subst (λ u. ReadsAs (marshal v ++ rest) u (read (marshal v ++ rest)))
      (unmarshal-marshal v rest h) (read-ReadsAs (marshal v ++ rest))).0
    ∙ ap (λ (l : List ℕ). ok (v, l)) (drop-append (marshal v) rest)

pub then_ok {ℓ κ} :
    {A : Type ℓ} {B : Type κ} {x : Result A} {a : A} (f : A → Result B) {y : Result B}
    → x ≡ ok a
    → f a ≡ y
    → (x >>= f) ≡ y
then_ok f h k = ap (λ r. r >>= f) h ∙ k

pub read_full-append : (xs rest : List ℕ) → read_full (length xs) (xs ++ rest) ≡ ok (xs, rest)
unfolding read_full
read_full-append xs rest =
    rw (le→leb (length xs) (length (xs ++ rest)) (omega (arith, length-append xs rest)))
      (rw (take-append xs rest) (rw (drop-append xs rest) refl))

abbrev header_with : Bool → Bool → ℕ → ℕ → Header
header_with p f a g = record { properties = p; first_object = f; track_alias = a; group_id = g }

first_byte :
    (p f : Bool) (a g : ℕ)
    → marshal (stream_type (header_with p f a g)) ≡ stream_type (header_with p f a g) ∷ []
unfolding marshal low_bytes
first_byte true true a g = refl
first_byte true false a g = refl
first_byte false true a g = refl
first_byte false false a g = refl

header_of-flags :
    (p f : Bool) (a g : ℕ)
    → header_of (stream_type (header_with p f a g) ∷ []) a g ≡ header_with p f a g
header_of-flags true true a g = refl
header_of-flags true false a g = refl
header_of-flags false true a g = refl
header_of-flags false false a g = refl

read_header-marshal :
    (h : Header) (rest : List ℕ)
    → IsU64 h.track_alias
    → IsU64 h.group_id
    → read_header (marshal_header h ++ rest) ≡ ok (h, rest)
unfolding read_header marshal_header
read_header-marshal h rest a g =
    let b : ℕ = stream_type h in
    let alias : List ℕ = marshal h.track_alias in
    let group : List ℕ = marshal h.group_id in
    rw (first_byte h.properties h.first_object h.track_alias h.group_id) (
      rw (append_assoc alias group rest) (
        then_ok _ (read_full-append (b ∷ []) (alias ++ (group ++ rest))) (
          then_ok _ (read-marshal h.track_alias (group ++ rest) a) (
            then_ok _ (read-marshal h.group_id rest g) (
              ap (λ (x : Header). ok (x, rest))
                (header_of-flags h.properties h.first_object h.track_alias h.group_id))))))

not_zero : (n : ℕ) → 1 ≤ n → (n == 0) ≡ false
not_zero n h = ground arith

read_small : (b : ℕ) (rest : List ℕ) → b < 128 → read (b ∷ rest) ≡ ok (b, rest)
unfolding marshal low_bytes
read_small b rest h =
    subst (λ (l : List ℕ). read (l ++ rest) ≡ ok (b, rest)) small
      (read-marshal b rest (omega arith))
  where
    small : marshal b ≡ b ∷ []
    small = ground arith

read_no_properties :
    (max_alloc : ℕ) (rest : List ℕ)
    → read_properties max_alloc true (marshal_object_properties true [] ++ rest) ≡ ok ([], rest)
unfolding read_properties marshal_object_properties marshal low_bytes marshal_from size_from
read_no_properties max_alloc rest = then_ok _ (read_small 0 rest (omega arith)) refl

some_size : (q : Property) (qs : List Property) → 1 ≤ properties_size (q ∷ qs)
some_size q qs = omega (arith, length-marshal_properties (q ∷ qs), fewer (q ∷ qs) 0)

read_some_properties-marshal :
    (ps : List Property) (rest : List ℕ)
    → All IsProperty ps
    → read_some_properties (properties_size ps) (marshal_properties ps ++ rest) ≡ ok (ps, rest)
read_some_properties-marshal ps rest k =
    then_ok _
      (subst
        (λ (n : ℕ). read_full n (marshal_properties ps ++ rest) ≡ ok (marshal_properties ps, rest))
        (length-marshal_properties ps) (read_full-append (marshal_properties ps) rest))
      (then_ok _ (ap decoded (unmarshal_properties-marshal ps k)) refl)

read_properties-marshal :
    (max_alloc : ℕ) (p : Bool) (ps : List Property) (rest : List ℕ)
    → (p ≡ true) ⊎ (ps ≡ [])
    → All IsProperty ps
    → properties_size ps ≤ max_alloc
    → properties_size ps < 2 ^ 64
    → read_properties max_alloc p (marshal_object_properties p ps ++ rest) ≡ ok (ps, rest)
unfolding read_properties marshal_object_properties
read_properties-marshal max_alloc false ps rest (inl wrong) k fits u = cc
read_properties-marshal max_alloc false ps rest (inr e) k fits u =
    ap (λ (l : List Property). ok (l, rest)) (sym e)
read_properties-marshal max_alloc true [] rest known k fits u = read_no_properties max_alloc rest
read_properties-marshal max_alloc true (q ∷ qs) rest known k fits u =
    let ps : List Property = q ∷ qs in
    rw (append_assoc (marshal (properties_size ps)) (marshal_properties ps) rest) (
      then_ok _ (read-marshal (properties_size ps) (marshal_properties ps ++ rest) u) (
        rw (not_zero (properties_size ps) (some_size q qs)) (
          rw (le→leb (properties_size ps) max_alloc fits)
            (read_some_properties-marshal ps rest k))))

read_payload-marshal :
    (payload rest : List ℕ)
    → length payload ≤ max_payload_size
    → read_payload (marshal_payload payload ++ rest) ≡ ok (payload, rest)
unfolding read_payload marshal_payload
read_payload-marshal [] rest h =
    then_ok _ (read_small 0 (3 ∷ rest) (omega arith))
      (then_ok _ (read_small 3 rest (omega arith)) refl)
read_payload-marshal (b ∷ bs) rest h = rw (append_assoc (marshal (length (b ∷ bs))) (b ∷ bs) rest) (
    then_ok _ (read-marshal (length (b ∷ bs)) ((b ∷ bs) ++ rest) (omega arith)) (
      rw (ge→ltb max_payload_size (length (b ∷ bs)) h)
        (rw (not_zero (length (b ∷ bs)) (omega arith)) (read_full-append (b ∷ bs) rest))))

-- What an object must be to be written: a uint64 and int64s, properties only where the header
-- announces them and of a size that `make` takes, and a payload of at most 10 MiB.
pub record IsWritable (max_alloc : ℕ) (h : Header) (o : Object) : Type 0 where
  pub id : IsU64 o.id_delta
  pub announced : (h.properties ≡ true) ⊎ (o.properties ≡ [])
  pub stamps : All IsProperty o.properties
  pub allocated : properties_size o.properties ≤ max_alloc
  pub size : properties_size o.properties < 2 ^ 64
  pub small : length o.payload ≤ max_payload_size

read_object-marshal :
    (max_alloc : ℕ) (h : Header) (o : Object) (rest : List ℕ)
    → IsWritable max_alloc h o
    → read_object max_alloc h (marshal_object h o ++ rest) ≡ ok (o, rest)
unfolding read_object marshal_object
read_object-marshal max_alloc h o rest w =
    let id : List ℕ = marshal o.id_delta in
    let props : List ℕ = marshal_object_properties h.properties o.properties in
    let body : List ℕ = marshal_payload o.payload in
    rw (append_assoc id (props ++ body) rest) (
      rw (append_assoc props body rest) (
        then_ok _ (read-marshal o.id_delta (props ++ (body ++ rest)) w.id) (
          then_ok _
            (read_properties-marshal max_alloc h.properties o.properties (body ++ rest) w.announced
              w.stamps w.allocated w.size)
            (then_ok _ (read_payload-marshal o.payload rest w.small) refl))))

last_object-IsWritable : (max_alloc : ℕ) (h : Header) → IsWritable max_alloc h last_object
unfolding size_from
last_object-IsWritable max_alloc h = record {
  id = omega arith;
  announced = inr refl;
  stamps = tt;
  allocated = omega arith;
  size = omega arith;
  small = omega arith;
}

abbrev pub single : Header → Object → SubGroup
single h o = record { header = h; objects = o ∷ [] }

-- `SubGroup.Read` gives back a subgroup with one object that `Marshal` wrote, and stops behind it,
-- for a track alias and a group of type uint64 and an object that can be written.
pub read_subgroup-marshal :
    (max_alloc : ℕ) (h : Header) (o : Object) (rest : List ℕ)
    → IsU64 h.track_alias
    → IsU64 h.group_id
    → IsWritable max_alloc h o
    → read_subgroup max_alloc (marshal_subgroup (single h o) ++ rest) ≡ ok (single h o, rest)
unfolding read_subgroup marshal_subgroup marshal_objects
read_subgroup-marshal max_alloc h o rest a g w =
    let head : List ℕ = marshal_header h in
    let first : List ℕ = marshal_object h o in
    let last : List ℕ = marshal_object h last_object in
    rw (append_assoc head (first ++ last) rest) (
      rw (append_assoc first last rest) (
        then_ok _ (read_header-marshal h (first ++ (last ++ rest)) a g) (
          then_ok _ (read_object-marshal max_alloc h o (last ++ rest) w) (
            then_ok _
              (read_object-marshal max_alloc h last_object rest
                (last_object-IsWritable max_alloc h))
              refl))))
