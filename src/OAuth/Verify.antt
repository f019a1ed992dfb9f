-- ===== src/OAuth/Verify.antt =====
-- The signature against the server that checks it.
use black_circle.Prelude.{
  Bool, true, false, ◌≡◌, ◌++◌, [], ◌∷◌, sym, ◌∙◌, arith, none, some, inl, inr, Bytes, codes,
  bytes_eq_iff, Option-cases, All,
}
use black_circle.Util.Base64.{base64_encode}
use black_circle.StringMap.{StringMap, find, assign, erase, IsSorted}
use black_circle.StringMap.Laws.{
  assign-IsSorted, erase-IsSorted, find-assign, find-erase, eq_of_find,
}
use black_circle.OAuth.Invariant.{
  IsValid, IsValid-ne-nil, unsigned_params-IsValid, gen_request_signature-IsValid,
}
use black_circle.OAuth.Header.{IsPart, parse_authorization, parse_authorization-gen_postparam}
use black_circle.OAuth.Query.{IsClean, parse_query, parse_query-gen_getquery, parse_query-apply}
use black_circle.OAuth.Server.{
  all_unreserved, secrets_key, secrets_key_lem, IsPlain, accepts, accepts-has_signature,
  accepts_arranged, arrange_new, base_string-signature_base,
}
use black_circle.OAuth.Signing.{gen_request_signature_threw, gen_request_signature_returned}
use black_circle.OAuth.{
  Crypto, Draw, returned, TokenRequester, unsigned_params, sign_request, gen_request_signature,
  gen_nonce, get_time, gen_getquery, gen_postparam, signing_key, combine_as_get_param,
}

abbrev sig : Bytes
sig = codes "oauth_signature"

-- A key that is not there can be set and taken away again.
erase-assign :
    (k v : Bytes) (m : StringMap Bytes) → IsSorted m → find k m ≡ none → erase k (assign k v m) ≡ m
erase-assign k v m s h =
    eq_of_find (erase k (assign k v m)) m (erase-IsSorted k _ (assign-IsSorted k v m s)) s λ j.
      ground (
        arith,
        find-erase j k (assign k v m) (assign-IsSorted k v m s),
        find-assign j k v m,
        bytes_eq_iff j k,
      )

-- The same for a query as it comes over the wire.
pub accepts_query : Crypto → Bytes → Bytes → Bytes → Bytes → Bool
accepts_query c key uri method q = elim (parse_query q) [
  | none ↦ false
  | some m ↦ accepts c key uri method m
]

-- The same for a form that is posted: the parameters of its `Authorization` and those of its body.
pub accepts_post : Crypto → Bytes → Bytes → Bytes → Bytes → Bool
accepts_post c key uri authorization body = elim (parse_authorization authorization) [
  | none ↦ false
  | some m ↦ elim (parse_query body) [
    | none ↦ false
    | some n ↦ accepts c key uri (codes "POST") (n ++ m)
  ]
]

module _ (c : Crypto) (uri method : Bytes) (d : Draw) (r : TokenRequester) where
  abbrev unsigned : StringMap Bytes
  unsigned = unsigned_params c d r.params

  find-unsigned : IsValid r.params → find sig unsigned ≡ none
  unfolding unsigned_params
  find-unsigned h =
      let m1 = assign (codes "oauth_nonce") (gen_nonce c d) r.params in
      let m2 = assign (codes "oauth_timestamp") (get_time c d) m1 in
      let sorted =
        assign-IsSorted (codes "oauth_timestamp") (get_time c d) m1
          (assign-IsSorted (codes "oauth_nonce") (gen_nonce c d) r.params h.sorted) in
      find-erase sig sig m2 sorted

  accepts-signed :
      (md : Bytes)
      → IsValid r.params
      → sign_request c uri method r unsigned ≡ some md
      → accepts c (signing_key r) uri method (assign sig (base64_encode md) unsigned) ≡ true
  accepts-signed md h signed =
      let valid = unsigned_params-IsValid c d r.params h in
      accepts-has_signature c (signing_key r) uri method md (assign sig (base64_encode md) unsigned)
        (assign-IsSorted sig (base64_encode md) unsigned valid.sorted)
        (find-assign sig sig (base64_encode md) unsigned)
        (rw (erase-assign sig (base64_encode md) unsigned valid.sorted (find-unsigned h))
          (rw (sym (base_string-signature_base method uri unsigned valid.plain)) signed))

  -- The parameters after a signature that returned.
  pub accepts-gen_request_signature :
      IsValid r.params
      → (gen_request_signature c uri method d r).1 ≡ returned
      → accepts c (signing_key r) uri method (gen_request_signature c uri method d r).0.params
        ≡ true
  accepts-gen_request_signature h ok = elim (Option-cases (sign_request c uri method r unsigned)) [
    | inl failed ↦ absurd (cc (gen_request_signature_threw c uri method d r failed, ok))
    | inr (md, signed) ↦
        rw (gen_request_signature_returned c uri method d r md signed) (accepts-signed md h signed)
  ]

  -- The query after it.
  pub accepts_query-signing_key :
      IsValid r.params
      → (gen_request_signature c uri method d r).1 ≡ returned
      → accepts_query c
          (signing_key r)
          uri
          method
          (gen_getquery (gen_request_signature c uri method d r).0)
        ≡ true
  unfolding accepts_query
  accepts_query-signing_key h ok =
      let q = (gen_request_signature c uri method d r).0 in
      let v = gen_request_signature-IsValid c d uri method r h in
      rw (parse_query-gen_getquery q (IsValid-ne-nil q.params v) v.clean, accepts_query)
        (accepts-gen_request_signature h ok)

  -- A server of the OAuth core that shares the secrets, and arranges, encodes and signs the
  -- parameters that it reads by its own rules, accepts the query of a valid requester that has
  -- signed a request, whatever it signed before, if the call returned and did not throw and the two
  -- secrets are unreserved characters.
  pub accepts_query-gen_request_signature :
      IsValid r.params
      → all_unreserved r.consumer_secret ≡ true
      → all_unreserved r.token_secret ≡ true
      → (gen_request_signature c uri method d r).1 ≡ returned
      → accepts_query c
          (secrets_key r.consumer_secret r.token_secret)
          uri
          method
          (gen_getquery (gen_request_signature c uri method d r).0)
        ≡ true
  accepts_query-gen_request_signature h hc ht ok =
      rw (secrets_key_lem r.consumer_secret r.token_secret hc ht) (accepts_query-signing_key h ok)

parts : (m : StringMap Bytes) → All IsPlain m → All IsClean m → All IsPart m
parts [] h k = tt
parts (p ∷ m) h k = ((h.0, k.0.2), parts m h.1 k.1)

-- A form whose status stands in the body, and the other parameters in the header.
pub accepts_post-gen_postparam :
    (c : Crypto) (key uri k v : Bytes) (r : TokenRequester) (m : StringMap Bytes)
    → IsValid r.params
    → IsClean (k, v)
    → find k r.params ≡ none
    → assign k v r.params ≡ m
    → IsSorted m
    → accepts c key uri (codes "POST") m ≡ true
    → accepts_post c key uri (codes "OAuth " ++ gen_postparam r) (combine_as_get_param.apply (k, v))
      ≡ true
unfolding accepts_post
accepts_post-gen_postparam c key uri k v r m h clean free e s a =
    rw
      (
        parse_authorization-gen_postparam r (IsValid-ne-nil r.params h)
            (parts r.params h.plain h.clean),
        accepts_post,
      )
      (rw (parse_query-apply (k, v) clean) (
        accepts_arranged c key uri (codes "POST") ((k, v) ∷ r.params) m
          (arrange_new k v r.params h.sorted free ∙ e) s a))
