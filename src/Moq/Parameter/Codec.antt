-- ===== src/Moq/Parameter/Codec.antt =====
-- internal/protocols/moq/parameter: what `Parameters.MarshalTo` writes, decoded again.
use ppmmx.Base.{
  ℕ, ◌+◌, ◌%◌, ◌^◌, ◌<◌, ◌≤◌, ◌≡◌, refl, ap, sym, ◌∙◌, false, ◌&&◌, List, [], ◌∷◌, ◌++◌, leb, ◌==◌,
  if◌then◌else◌, length, take, All, append_assoc, length-append, take-append, drop-append, arith,
}
use ppmmx.Base.Int.{pos, ◌+ℤ◌, ◌-ℤ◌, ltb_ℤ}
use ppmmx.Moq.{Result, ok, panic, IsU64, int_of}
use ppmmx.Moq.Varint.{marshal}
use ppmmx.Moq.Varint.Codec.{unmarshal-marshal, length-marshal}
use ppmmx.Moq.Subgroup.Codec.{then_ok}
use ppmmx.Moq.Parameter.{
  AuthorizationToken, Parameter, authorization_token, type_authorization_token,
  alias_type_use_value, slice_between, read_token, by_parameter_type, token_of, unmarshal_token,
  in_token, unmarshal_from, unmarshal_parameters, inner_size, marshal_token, type_delta,
  marshal_after, marshal_parameters, token_size, size_after, parameters_size,
}

-- A token that the decoder knows, of a size that is an int.
pub record IsToken (t : AuthorizationToken) : Type 0 where
  pub use_value : t.alias_type ≡ alias_type_use_value
  pub type_fits : IsU64 t.token_type
  pub size_fits : inner_size t < 2 ^ 63

abbrev pub IsParameter : Parameter → Type 0
IsParameter (authorization_token t) = IsToken t

read_token-marshal :
    (alias type : ℕ) (value : List ℕ)
    → IsU64 type
    → read_token alias (marshal type ++ value)
      ≡ ok (record { alias_type = alias; token_type = type; token_value = value })
read_token-marshal alias type value h = then_ok _ (unmarshal-marshal type value h) (
    ap (λ (v : List ℕ). ok (record { alias_type = alias; token_type = type; token_value = v }))
      (drop-append (marshal type) value))

token_of-marshal :
    (t : AuthorizationToken)
    → IsToken t
    → token_of (marshal t.alias_type ++ (marshal t.token_type ++ t.token_value)) ≡ ok t
unfolding token_of
token_of-marshal t k =
    let type_bytes : List ℕ = marshal t.token_type ++ t.token_value in
    let known = k.use_value in
    then_ok _ (unmarshal-marshal t.alias_type type_bytes (omega arith)) (
      when_known t.alias_type _ _ known
      ∙ ap (read_token t.alias_type) (drop-append (marshal t.alias_type) type_bytes)
      ∙ read_token-marshal t.alias_type t.token_type t.token_value k.type_fits)
  where
    when_known :
        (alias : ℕ) (x y : Result AuthorizationToken)
        → alias ≡ alias_type_use_value
        → (if alias == alias_type_use_value then x else y) ≡ x
    when_known alias x y e = rw e refl

int_of-small : (n : ℕ) → n < 2 ^ 63 → int_of n ≡ pos n
int_of-small n h = ground arith

enough : (a n r : ℕ) → ltb_ℤ (pos (a + (n + r)) -ℤ pos a) (pos n) ≡ false
unfolding ◌-ℤ◌
enough a n r = ground arith

end_of : (a n : ℕ) → pos a +ℤ pos n ≡ pos (a + n)
unfolding ◌+ℤ◌
end_of a n = ground arith

slice_between-append :
    (xs ys zs : List ℕ)
    → slice_between (xs ++ (ys ++ zs)) (length xs) (pos (length xs + length ys)) ≡ ok ys
unfolding slice_between
slice_between-append xs ys zs =
    inside (length xs) (length ys) (length (xs ++ (ys ++ zs))) _
      (omega (arith, length-append xs (ys ++ zs), length-append ys zs))
    ∙ ap ok (
        rw (drop-append xs (ys ++ zs))
          (ap (λ (n : ℕ). take n (ys ++ zs)) (omega arith) ∙ take-append ys zs))
  where
    inside :
        (a n l : ℕ) (bytes : List ℕ)
        → a + n ≤ l
        → (if leb a (a + n) && leb (a + n) l then ok bytes else panic) ≡ ok bytes
    inside a n l bytes h = ground arith

unmarshal_token-inner :
    (inner rest : List ℕ) (t : AuthorizationToken)
    → length inner < 2 ^ 63
    → token_of inner ≡ ok t
    → unmarshal_token (marshal (length inner) ++ (inner ++ rest))
      ≡ ok (t, length (marshal (length inner)) + length inner)
unfolding unmarshal_token
unmarshal_token-inner inner rest t h e =
    let size : List ℕ = marshal (length inner) in
    then_ok _ (unmarshal-marshal (length inner) (inner ++ rest) (omega arith)) (
      rw (int_of-small (length inner) h) (
        rw (length-append size (inner ++ rest)) (
          rw (length-append inner rest) (
            rw (enough (length size) (length inner) (length rest)) (
              rw (end_of (length size) (length inner))
                (then_ok _ (slice_between-append size inner rest) (then_ok _ e refl)))))))

length-inner :
    (t : AuthorizationToken)
    → length (marshal t.alias_type ++ (marshal t.token_type ++ t.token_value)) ≡ inner_size t
length-inner t = omega (
  arith,
  length-append (marshal t.alias_type) (marshal t.token_type ++ t.token_value),
  length-append (marshal t.token_type) t.token_value,
  length-marshal t.alias_type,
  length-marshal t.token_type,
)

unmarshal_token-marshal :
    (t : AuthorizationToken) (rest : List ℕ)
    → IsToken t
    → unmarshal_token (marshal_token t ++ rest) ≡ ok (t, length (marshal_token t))
unfolding marshal_token
unmarshal_token-marshal t rest k =
    let inner : List ℕ = marshal t.alias_type ++ (marshal t.token_type ++ t.token_value) in
    let n = inner_size t in
    let small = k.size_fits in
    let same = length-inner t in
    rw (append_assoc (marshal n) inner rest) (
      ap (λ (m : ℕ). unmarshal_token (marshal m ++ (inner ++ rest))) (sym same)
      ∙ unmarshal_token-inner inner rest t (omega arith) (token_of-marshal t k)
      ∙ ap (λ (m : ℕ). ok (t, length (marshal m) + length inner)) same
      ∙ ap (λ (m : ℕ). ok (t, m)) (sym (length-append (marshal n) inner)))

pub length-marshal_after :
    (ps : List Parameter) (prev : ℕ) → length (marshal_after prev ps) ≡ size_after prev ps
unfolding marshal_after size_after marshal_token token_size
length-marshal_after [] prev = refl
length-marshal_after (authorization_token t ∷ ps) prev =
    let d : List ℕ = marshal (type_delta prev) in
    let inner : List ℕ = marshal t.alias_type ++ (marshal t.token_type ++ t.token_value) in
    let more : List ℕ = marshal_after type_authorization_token ps in
    omega (
      arith,
      length-append d ((marshal (inner_size t) ++ inner) ++ more),
      length-append (marshal (inner_size t) ++ inner) more,
      length-append (marshal (inner_size t)) inner,
      length-inner t,
      length-marshal (type_delta prev),
      length-marshal (inner_size t),
      length-marshal_after ps type_authorization_token,
    )

by_parameter_type-marshal :
    (t : AuthorizationToken) (rest : List ℕ)
    → IsToken t
    → by_parameter_type type_authorization_token (marshal_token t ++ rest)
      ≡ ok (authorization_token t, length (marshal_token t))
by_parameter_type-marshal t rest k = then_ok _ (in_token_ok (unmarshal_token-marshal t rest k)) refl
  where
    in_token_ok :
        {r : Result (AuthorizationToken × ℕ)} {a : AuthorizationToken × ℕ}
        → r ≡ ok a
        → in_token r ≡ ok a
    in_token_ok e = ap in_token e

type_again :
    (prev : ℕ) → prev < 2 ^ 64 → (prev + type_delta prev) % 2 ^ 64 ≡ type_authorization_token
type_again prev h = omega arith

unmarshal_from-marshal :
    (ps : List Parameter) (prev : ℕ) (rest : List ℕ)
    → prev < 2 ^ 64
    → All IsParameter ps
    → unmarshal_from (length ps) prev (marshal_after prev ps ++ rest)
      ≡ ok (ps, length (marshal_after prev ps))
unfolding unmarshal_from marshal_after
unmarshal_from-marshal [] prev rest p k = refl
unmarshal_from-marshal (authorization_token t ∷ ps) prev rest p (k, ks) =
    let d : List ℕ = marshal (type_delta prev) in
    let token : List ℕ = marshal_token t in
    let more : List ℕ = marshal_after type_authorization_token ps in
    rw (append_assoc d (token ++ more) rest) (
      rw (append_assoc token more rest) (
        then_ok _ (unmarshal-marshal (type_delta prev) (token ++ (more ++ rest)) (omega arith)) (
          rw (type_again prev p) (
            rw (drop-append d (token ++ (more ++ rest))) (
              then_ok _ (by_parameter_type-marshal t (more ++ rest) k) (
                rw (drop-append token (more ++ rest)) (
                  then_ok _
                    (unmarshal_from-marshal ps type_authorization_token rest (omega arith) ks)
                    (ap (λ (n : ℕ). ok (authorization_token t ∷ ps, n))
                      (omega
                        (arith, length-append d (token ++ more), length-append token more))))))))))

-- For tokens with the alias type of a value and types of type uint64, whose sizes are an int,
-- `Unmarshal` on what `MarshalTo` wrote, whatever follows it, gives the parameters back and uses as
-- many bytes as `MarshalSize` announces.
pub unmarshal_parameters-marshal :
    (ps : List Parameter) (rest : List ℕ)
    → All IsParameter ps
    → unmarshal_parameters (length ps) (marshal_parameters ps ++ rest) ≡ ok (ps, parameters_size ps)
unmarshal_parameters-marshal ps rest k =
    unmarshal_from-marshal ps 0 rest (omega arith) k
    ∙ ap (λ (n : ℕ). ok (ps, n)) (length-marshal_after ps 0)
