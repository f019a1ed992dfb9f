-- ===== src/OAuth/Frame.antt =====
-- What signing changes and what it leaves.
use black_circle.Prelude.{
  false, ◌≡◌, refl, ap, ◌∙◌, arith, none, some, inl, inr, Bytes, codes, bytes_eq, Option-cases,
  if◌then◌else◌,
}
use black_circle.Util.Base64.{base64_encode}
use black_circle.StringMap.{StringMap, find, assign, IsSorted}
use black_circle.StringMap.Laws.{
  assign-IsSorted, erase-IsSorted, find-assign, find-erase, eq_of_find,
}
use black_circle.OAuth.Signing.{gen_request_signature_threw, gen_request_signature_returned}
use black_circle.OAuth.{
  Crypto, Draw, threw, TokenRequester, gen_nonce, get_time, unsigned_params, sign_request,
  sign_params, gen_request_signature,
}

module _ (c : Crypto) (d : Draw) where
  -- The parameters that are signed, key by key.
  find-unsigned_params :
      (k : Bytes) (m : StringMap Bytes)
      → IsSorted m
      → find k (unsigned_params c d m) ≡ (
          if bytes_eq k (codes "oauth_signature")
          then none
          else if bytes_eq k (codes "oauth_timestamp")
          then some (get_time c d)
          else if bytes_eq k (codes "oauth_nonce")
          then some (gen_nonce c d)
          else find k m)
  unfolding unsigned_params
  find-unsigned_params k m s =
      let m1 = assign (codes "oauth_nonce") (gen_nonce c d) m in
      let m2 = assign (codes "oauth_timestamp") (get_time c d) m1 in
      let s2 =
        assign-IsSorted (codes "oauth_timestamp") (get_time c d) m1
          (assign-IsSorted (codes "oauth_nonce") (gen_nonce c d) m s) in
      rw (
        find-erase k (codes "oauth_signature") m2 s2,
        find-assign k (codes "oauth_timestamp") (get_time c d) m1,
        find-assign k (codes "oauth_nonce") (gen_nonce c d) m,
      )

  unsigned_params-IsSorted : (m : StringMap Bytes) → IsSorted m → IsSorted (unsigned_params c d m)
  unfolding unsigned_params
  unsigned_params-IsSorted m s = erase-IsSorted (codes "oauth_signature") _ (
      assign-IsSorted (codes "oauth_timestamp") (get_time c d) _
        (assign-IsSorted (codes "oauth_nonce") (gen_nonce c d) m s))

  -- An old signature does not show.
  unsigned_params-stale :
      (v : Bytes) (m : StringMap Bytes)
      → IsSorted m
      → unsigned_params c d (assign (codes "oauth_signature") v m) ≡ unsigned_params c d m
  unsigned_params-stale v m s =
      let t = assign-IsSorted (codes "oauth_signature") v m s in
      eq_of_find _ _ (unsigned_params-IsSorted _ t) (unsigned_params-IsSorted m s) λ k.
        rw
          (
            find-unsigned_params k (assign (codes "oauth_signature") v m) t,
            find-unsigned_params k m s,
            find-assign k (codes "oauth_signature") v m,
          )
          (ground arith)

  -- For a requester with sorted parameters, signing after any old signature `v` was set gives what
  -- signing without it gives: the old signature is never part of the signed message.
  gen_request_signature-stale :
      (uri method v : Bytes) (r : TokenRequester)
      → IsSorted r.params
      → gen_request_signature c uri method d
          (record r { params = assign (codes "oauth_signature") v r.params })
        ≡ gen_request_signature c uri method d r
  unfolding gen_request_signature
  gen_request_signature-stale uri method v r s =
      ap (sign_params c uri method r) (unsigned_params-stale v r.params s)

  -- How the requester after a call, `s`, differs from the one before: the URI is set, the nonce and
  -- the time stamp are fresh; the secrets and the other parameters but the signature are those
  -- before.
  pub record Signed (uri : Bytes) (r s : TokenRequester) : Type 0 where
    pub uri_set : s.req_uri ≡ uri
    pub consumer_kept : s.consumer_secret ≡ r.consumer_secret
    pub token_kept : s.token_secret ≡ r.token_secret
    pub nonce : find (codes "oauth_nonce") s.params ≡ some (gen_nonce c d)
    pub stamp : find (codes "oauth_timestamp") s.params ≡ some (get_time c d)
    pub others :
        (k : Bytes)
        → bytes_eq k (codes "oauth_signature") ≡ false
        → bytes_eq k (codes "oauth_timestamp") ≡ false
        → bytes_eq k (codes "oauth_nonce") ≡ false
        → find k s.params ≡ find k r.params

  Signed-unsigned :
      (uri : Bytes) (r : TokenRequester)
      → IsSorted r.params
      → Signed uri r (record r { req_uri = uri; params = unsigned_params c d r.params })
  Signed-unsigned uri r s = record {
    uri_set = refl;
    consumer_kept = refl;
    token_kept = refl;
    nonce = find-unsigned_params (codes "oauth_nonce") r.params s;
    stamp = find-unsigned_params (codes "oauth_timestamp") r.params s;
    others = λ k a b e. rw (find-unsigned_params k r.params s, a, b, e);
  }

  Signed-assign :
      (uri v : Bytes) (r s : TokenRequester)
      → Signed uri r s
      → Signed uri r (record s { params = assign (codes "oauth_signature") v s.params })
  Signed-assign uri v r s h = record {
    uri_set = h.uri_set;
    consumer_kept = h.consumer_kept;
    token_kept = h.token_kept;
    nonce = find-assign (codes "oauth_nonce") (codes "oauth_signature") v s.params ∙ h.nonce;
    stamp = find-assign (codes "oauth_timestamp") (codes "oauth_signature") v s.params ∙ h.stamp;
    others =
        λ k a b e. rw (find-assign k (codes "oauth_signature") v s.params, a) (h.others k a b e);
  }

  -- A call on sorted parameters leaves what `Signed` says, whether it returned or threw, and no
  -- signature if it threw.
  pub gen_request_signature-Signed :
      (uri method : Bytes) (r : TokenRequester)
      → IsSorted r.params
      → Signed uri r (gen_request_signature c uri method d r).0
        × ((gen_request_signature c uri method d r).1 ≡ threw
            → find (codes "oauth_signature") (gen_request_signature c uri method d r).0.params
              ≡ none)
  gen_request_signature-Signed uri method r s =
      elim (Option-cases (sign_request c uri method r (unsigned_params c d r.params))) [
        | inl failed ↦ rw (gen_request_signature_threw c uri method d r failed) (
          Signed-unsigned uri r s,
          λ _. find-unsigned_params (codes "oauth_signature") r.params s,
        )
        | inr (md, signed) ↦
            rw (gen_request_signature_returned c uri method d r md signed)
              (Signed-assign uri (base64_encode md) r _ (Signed-unsigned uri r s), λ e. cc)
      ]

  -- What a call on sorted parameters leaves behind, whether it returned or threw: the URI, a fresh
  -- nonce and time stamp, the same secrets and every other parameter as before, and no signature if
  -- it threw. And a call after any old signature `v` was set does what one without it does: the old
  -- signature is never part of the signed message.
  pub gen_request_signature_lem :
      (uri method v : Bytes) (r : TokenRequester)
      → IsSorted r.params
      → Signed uri r (gen_request_signature c uri method d r).0
        × ((gen_request_signature c uri method d r).1 ≡ threw
            → find (codes "oauth_signature") (gen_request_signature c uri method d r).0.params
              ≡ none)
        × (gen_request_signature c uri method d
              (record r { params = assign (codes "oauth_signature") v r.params })
            ≡ gen_request_signature c uri method d r)
  gen_request_signature_lem uri method v r s =
      let (left, none_left) = gen_request_signature-Signed uri method r s in
      (left, none_left, gen_request_signature-stale uri method v r s)
