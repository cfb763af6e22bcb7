-- ===== src/Schema/Decoded.antt =====
-- plugin.py: what decode_args hands to an op.
use test_serv.Base.{
  ℕ, ◌≡◌, ◌∙◌, ◌⊎◌, inl, inr, refl, true, false, ◌||◌, none, some, List, [], ◌∷◌, String, arith,
  str_eq, eq_iff, if◌then◌else◌, Option-cases, Bool-cases,
}
use test_serv.Base.Dict.{Dict, NodupKeys, lookup, insert, mem, lookup-insert}
use test_serv.Plan.Value.{Value}
use test_serv.Base.Result.{>>=-eq-ok}
use test_serv.Schema.{
  ok, Arg, absent, OpSchema, merge, decode_one, decode_given, check_required, fill_optional,
  decode_args,
}

mem-merge : (k : String) (d more : Dict String) → mem k (merge d more) ≡ (mem k d || mem k more)
unfolding merge lookup
mem-merge k d [] = ground arith
mem-merge k d ((j, v) ∷ more) =
    ground (arith, mem-merge k (insert j v d) more, lookup-insert j k v d, eq_iff j k)

-- The loop keeps what it has, adds each given name, and takes only names of the schema.
decode_given_lem :
    (combined : Dict String) (blobs : Dict (List ℕ)) (given : Dict Value) (out : Dict Arg)
    {res : Dict Arg}
    → decode_given combined blobs given out ≡ ok res
    → (k : String)
    → (mem k res ≡ (mem k given || mem k out)) × (mem k given ≡ true → mem k combined ≡ true)
unfolding decode_given lookup
decode_given_lem combined blobs [] out {res} h k = ground arith
decode_given_lem combined blobs ((j, v) ∷ given) out {res} h k =
    elim (Option-cases (lookup j combined)) [
      | inl e ↦ absurd (ground arith)
      | inr (want, e) ↦
          let (a, decoded, h') =
            >>=-eq-ok (decode_one j want v blobs) _ (rw (e, decode_given) at h) in
          let ih = decode_given_lem combined blobs given (insert j a out) h' k in
          ground (arith, ih.0, ih.1, lookup-insert j k a out, eq_iff j k)
    ]

check_required_lem :
    (required : Dict String) (out : Dict Arg) (k : String)
    → check_required required out ≡ ok tt
    → mem k required ≡ true
    → mem k out ≡ true
unfolding check_required lookup
check_required_lem [] out k h m = absurd (ground arith)
check_required_lem ((j, t) ∷ required) out k h m =
    ground (arith, check_required_lem required out k, eq_iff j k)

mem-fill_optional :
    (optional : Dict String) (out : Dict Arg) (k : String)
    → mem k (fill_optional optional out) ≡ (mem k optional || mem k out)
unfolding fill_optional lookup
mem-fill_optional [] out k = refl
mem-fill_optional ((j, t) ∷ optional) out k = elim (Bool-cases (mem j out)) [
  | inl e ↦ rw e (mem-fill_optional optional out k ∙ ground (arith, eq_iff j k))
  | inr e ↦ rw e (
      ground (
        arith,
        mem-fill_optional optional (insert j absent out) k,
        lookup-insert j k absent out,
        eq_iff j k,
      ))
]

decode_given_keeps :
    (combined : Dict String) (blobs : Dict (List ℕ)) (given : Dict Value) (out : Dict Arg)
    (k : String) {res : Dict Arg}
    → decode_given combined blobs given out ≡ ok res
    → mem k given ≡ false
    → lookup k res ≡ lookup k out
unfolding decode_given lookup
decode_given_keeps combined blobs [] out k h m = ground arith
decode_given_keeps combined blobs ((j, v) ∷ given) out k {res} h m =
    elim (Option-cases (lookup j combined)) [
      | inl e ↦ absurd (ground arith)
      | inr (want, e) ↦
          let (a, decoded, h') =
            >>=-eq-ok (decode_one j want v blobs) _ (rw (e, decode_given) at h) in
          ground (
            arith,
            decode_given_keeps combined blobs given (insert j a out) k h',
            lookup-insert j k a out,
            eq_iff j k,
          )
    ]

decode_given-head :
    (combined : Dict String) (blobs : Dict (List ℕ)) (given : Dict Value) (out : Dict Arg)
    (j k want want' : String) (v w : Value) (a : Arg) {res : Dict Arg}
    → j ≡ k
    → decode_one j want' w blobs ≡ ok a
    → lookup j combined ≡ some want'
    → decode_given combined blobs given (insert j a out) ≡ ok res
    → mem j given ≡ false
    → lookup k ((j, w) ∷ given) ≡ some v
    → lookup k combined ≡ some want
    → (decode_one k want v blobs ≡ ok a) × (lookup k res ≡ some a)
unfolding lookup
decode_given-head combined blobs given out j k want want' v w a {res} same decoded e h fresh at_k
      of_k =
    (
      ground (arith, eq_iff j k),
      ground (
        arith,
        decode_given_keeps combined blobs given (insert j a out) j h fresh,
        lookup-insert j j a out,
        eq_iff j k,
        eq_iff j j,
      ),
    )

decode_given-lookup :
    (combined : Dict String) (blobs : Dict (List ℕ)) (given : Dict Value) (out : Dict Arg)
    (k want : String) (v : Value) {res : Dict Arg}
    → decode_given combined blobs given out ≡ ok res
    → NodupKeys given
    → lookup k given ≡ some v
    → lookup k combined ≡ some want
    → (a : Arg) × (decode_one k want v blobs ≡ ok a) × (lookup k res ≡ some a)
unfolding decode_given lookup
decode_given-lookup combined blobs [] out k want v h u at_k of_k = absurd (ground arith)
decode_given-lookup combined blobs ((j, w) ∷ given) out k want v {res} h u at_k of_k =
    elim (Option-cases (lookup j combined)) [
      | inl e ↦ absurd (ground arith)
      | inr (want', e) ↦
          let (a, decoded, h') =
            >>=-eq-ok (decode_one j want' w blobs) _ (rw (e, decode_given) at h) in
          elim (Bool-cases (str_eq j k)) [
            | inl hit ↦
                let found =
                  decode_given-head combined blobs given out j k want want' v w a
                    ((eq_iff j k).0 hit) decoded e h' u.0 at_k of_k in
                (a, found.0, found.1)
            | inr miss ↦
                decode_given-lookup combined blobs given (insert j a out) k want v h' u.1
                  (ground arith) of_k
          ]
    ]

lookup-fill_optional :
    (optional : Dict String) (out : Dict Arg) (k : String)
    → lookup k (fill_optional optional out)
      ≡ (if mem k out then lookup k out else if mem k optional then some absent else none)
unfolding fill_optional lookup
lookup-fill_optional [] out k = elim (Option-cases (lookup k out)) [
  | inl e ↦ ground arith
  | inr (v, e) ↦ ground arith
]
lookup-fill_optional ((j, t) ∷ optional) out k = elim (Bool-cases (mem j out)) [
  | inl e ↦ rw e (lookup-fill_optional optional out k ∙ ground (arith, eq_iff j k))
  | inr e ↦ rw e (
      ground (
        arith,
        lookup-fill_optional optional (insert j absent out) k,
        lookup-insert j k absent out,
        eq_iff j k,
      ))
]

decode_args_parts :
    (schema : OpSchema) (given : Dict Value) (blobs : Dict (List ℕ)) {res : Dict Arg}
    → decode_args schema given blobs ≡ ok res
    → (out : Dict Arg) × (decode_given (merge schema.args schema.optional_args) blobs given []
        ≡ ok out)
      × (check_required schema.args out ≡ ok tt)
      × (fill_optional schema.optional_args out ≡ res)
unfolding decode_args
decode_args_parts schema given blobs h =
    let (out, looped, rest) =
      >>=-eq-ok (decode_given (merge schema.args schema.optional_args) blobs given []) _ h in
    let (u, checked, filled) = >>=-eq-ok (check_required schema.args out) _ rest in
    (out, looped, ground arith, ground arith)

-- When decode_args succeeds, every given name is a name of the schema, every required name is
-- given, and the names of the result are the given names and the optional names.
pub decode_args_names :
    (schema : OpSchema) (given : Dict Value) (blobs : Dict (List ℕ)) {res : Dict Arg} (k : String)
    → decode_args schema given blobs ≡ ok res
    → (mem k given ≡ true → mem k schema.args ≡ true ⊎ mem k schema.optional_args ≡ true)
      × (mem k schema.args ≡ true → mem k given ≡ true)
      × (mem k res ≡ (mem k given || mem k schema.optional_args))
unfolding lookup
decode_args_names schema given blobs {res} k h =
    let (out, looped, checked, filled) = decode_args_parts schema given blobs h in
    let loop = decode_given_lem (merge schema.args schema.optional_args) blobs given [] looped k in
    let merged = mem-merge k schema.args schema.optional_args in
    let required = check_required_lem schema.args out k checked in
    let optional = mem-fill_optional schema.optional_args out k in
    (ground arith, ground arith, ground arith)

-- When decode_args succeeds on distinct names, an argument given under a name has in the result the
-- value that its type in the schema decodes it to, and an optional name that is not given is absent.
pub decode_args_values :
    (schema : OpSchema) (given : Dict Value) (blobs : Dict (List ℕ)) {res : Dict Arg} (k : String)
    → decode_args schema given blobs ≡ ok res
    → NodupKeys given
    → ((want : String) (v : Value)
        → lookup k given ≡ some v
        → lookup k (merge schema.args schema.optional_args) ≡ some want
        → (a : Arg) × (decode_one k want v blobs ≡ ok a) × (lookup k res ≡ some a))
      × (mem k given ≡ false → mem k schema.optional_args ≡ true → lookup k res ≡ some absent)
unfolding lookup
decode_args_values schema given blobs {res} k h u =
    let (out, looped, checked, filled) = decode_args_parts schema given blobs h in
    let combined = merge schema.args schema.optional_args in
    let loop = decode_given_lem combined blobs given [] looped k in
    let final = lookup-fill_optional schema.optional_args out k in
    (
      λ want v at_k of_k.
          let (a, decoded, stored) =
            decode_given-lookup combined blobs given [] k want v looped u at_k of_k in
          (a, decoded, ground arith),
      λ fresh opt. ground arith,
    )
