-- ===== src/OAuth/Query.antt =====
-- The query string against the parser of a server.
use mathlib.Core.Option
use black_circle.Prelude.{
  ℕ, ◌≡◌, ◌≢◌, refl, sym, ap, ◌∙◌, true, false, arith, List, [], ◌∷◌, ◌++◌, foldl, append-nil,
  append_assoc, Option, none, some, Bytes, AllBytes, ◌==◌, All, All-append,
}
use black_circle.Util.Escape.{url_escape}
use black_circle.Util.Escape.Decode.{
  IsSafe, url_unescape, url_unescape-url_escape, url_escape-IsSafe,
}
use black_circle.StringMap.{StringMap}
use black_circle.OAuth.{
  Combiner, combine_as_get_param, combine_params, make_request, TokenRequester, gen_getquery,
}

abbrev pub Lacks : ℕ → Bytes → Type 0
Lacks sep = All (λ c. c ≢ sep)

-- A pair that a query can carry: the key is written as it is.
abbrev pub IsClean : Bytes × Bytes → Type 0
IsClean p = Lacks b'&' p.0 × Lacks b'=' p.0 × AllBytes p.1

pub IsSafe-Lacks : (sep : ℕ) (s : Bytes) → (sep ≡ b'&') → All IsSafe s → Lacks sep s
IsSafe-Lacks sep [] e h = tt
IsSafe-Lacks sep (c ∷ s) e h = (λ eq. ground arith, IsSafe-Lacks sep s e h.1)

-- The parts between the separators; there is always one.
unfoldable pub split : ℕ → Bytes → List Bytes
split sep [] = [] ∷ []
split sep (c ∷ s) =
    let rest = split sep s in elim (c == sep) [ true ↦ [] ∷ rest | false ↦ onto c rest ]
  where
    onto : ℕ → List Bytes → List Bytes
    onto c [] = (c ∷ []) ∷ []
    onto c (p ∷ ps) = (c ∷ p) ∷ ps

-- A part is a key, `=` and an escaped value.
parse_pair : Bytes → Option (Bytes × Bytes)
parse_pair [] = none
parse_pair (c ∷ s) =
    let rest = parse_pair s in
    elim (c == b'=') [
      | true ↦ Option.map (λ v. ([], v)) (url_unescape s)
      | false ↦ Option.map (λ p. (c ∷ p.0, p.1)) rest
    ]

parse_pairs : List Bytes → Option (StringMap Bytes)
parse_pairs [] = some []
parse_pairs (s ∷ ss) = elim (parse_pair s) [
  | none ↦ none
  | some p ↦ Option.map (◌∷◌ p) (parse_pairs ss)
]

pub parse_query : Bytes → Option (StringMap Bytes)
parse_query s = parse_pairs (split b'&' s)

-- What the pairs after the first add to a request.
unfoldable pub tail_of : Combiner → StringMap Bytes → Bytes
tail_of cmb [] = []
tail_of cmb (p ∷ m) = cmb.joiner ++ (cmb.apply p ++ tail_of cmb m)

pub foldl-tail_of :
    (cmb : Combiner) (m : StringMap Bytes) (out : Bytes)
    → foldl (combine_params cmb) out m ≡ out ++ tail_of cmb m
unfolding tail_of
foldl-tail_of cmb [] out = rw append-nil
foldl-tail_of cmb (p ∷ m) out = simp (foldl-tail_of cmb m, append_assoc)

pub make_request-cons :
    (cmb : Combiner) (p : Bytes × Bytes) (m : StringMap Bytes)
    → make_request cmb (p ∷ m) ≡ cmb.apply p ++ tail_of cmb m
unfolding make_request
make_request-cons cmb p m = foldl-tail_of cmb m (cmb.apply p)

pub split-Lacks : (sep : ℕ) (p : Bytes) → Lacks sep p → split sep p ≡ p ∷ []
unfolding split
split-Lacks sep [] h = refl
split-Lacks sep (c ∷ p) h = ground (arith, split-Lacks sep p h.1)

pub split_at :
    (sep : ℕ) (p rest : Bytes) → Lacks sep p → split sep (p ++ (sep ∷ rest)) ≡ p ∷ split sep rest
unfolding split
split_at sep [] rest h = ground arith
split_at sep (c ∷ p) rest h = ground (arith, split_at sep p rest h.1)

parse_pair-apply :
    (k v : Bytes)
    → Lacks b'=' k
    → AllBytes v
    → parse_pair (k ++ (b'=' ∷ url_escape v)) ≡ some (k, v)
unfolding parse_pair
parse_pair-apply [] v h b = rw (url_unescape-url_escape v b)
parse_pair-apply (c ∷ k) v h b = ground (arith, parse_pair-apply k v h.1 b)

apply-Lacks : (p : Bytes × Bytes) → IsClean p → Lacks b'&' (combine_as_get_param.apply p)
apply-Lacks p h =
    All-append _ p.0 (b'=' ∷ url_escape p.1) h.0
      (omega arith, IsSafe-Lacks b'&' (url_escape p.1) refl (url_escape-IsSafe p.1 h.2))

parse_pairs-cons :
    (s : Bytes) (ss : List Bytes) (p : Bytes × Bytes) (m : StringMap Bytes)
    → parse_pair s ≡ some p
    → parse_pairs ss ≡ some m
    → parse_pairs (s ∷ ss) ≡ some (p ∷ m)
unfolding parse_pairs
parse_pairs-cons s ss p m h t = ground arith

module _ (p : Bytes × Bytes) (clean : IsClean p) where
  text : Bytes
  text = combine_as_get_param.apply p

  parse_pair-text : parse_pair text ≡ some p
  unfolding text
  parse_pair-text = parse_pair-apply p.0 p.1 clean.1 clean.2

  parse_last : parse_query (text ++ []) ≡ some (p ∷ [])
  unfolding parse_query parse_pairs
  parse_last =
      ap parse_query (append-nil text)
      ∙ ap parse_pairs (split-Lacks b'&' text (unfold text in apply-Lacks p clean))
      ∙ parse_pairs-cons text [] p [] parse_pair-text refl

  parse_more :
      (s : Bytes) (m : StringMap Bytes)
      → parse_query s ≡ some m
      → parse_query (text ++ (b'&' ∷ s)) ≡ some (p ∷ m)
  unfolding parse_query
  parse_more s m h =
      ap parse_pairs (split_at b'&' text s (unfold text in apply-Lacks p clean))
      ∙ parse_pairs-cons text (split b'&' s) p m parse_pair-text h

-- A body of one parameter.
pub parse_query-apply :
    (p : Bytes × Bytes) → IsClean p → parse_query (combine_as_get_param.apply p) ≡ some (p ∷ [])
unfolding text
parse_query-apply p h =
    ap parse_query (sym (append-nil (combine_as_get_param.apply p))) ∙ parse_last p h

parse_query-pairs :
    (p : Bytes × Bytes) (m : StringMap Bytes)
    → All IsClean (p ∷ m)
    → parse_query (combine_as_get_param.apply p ++ tail_of combine_as_get_param m) ≡ some (p ∷ m)
unfolding tail_of text
parse_query-pairs p [] h = parse_last p h.0
parse_query-pairs p (q ∷ m) h = parse_more p h.0 _ (q ∷ m) (parse_query-pairs q m h.1)

-- What a server reads from the query of a requester whose keys hold no `&` and no `=` is exactly its
-- parameters, in order, with their values whole, whatever bytes they hold. There is at least one
-- parameter.
pub parse_query-gen_getquery :
    (r : TokenRequester)
    → r.params ≢ []
    → All IsClean r.params
    → parse_query (gen_getquery r) ≡ some r.params
unfolding gen_getquery
parse_query-gen_getquery r ne h = request r.params ne h
  where
    request :
        (m : StringMap Bytes)
        → m ≢ []
        → All IsClean m
        → parse_query (make_request combine_as_get_param m) ≡ some m
    request [] ne h = absurd (ne refl)
    request (p ∷ m) ne h =
        ap parse_query (make_request-cons combine_as_get_param p m) ∙ parse_query-pairs p m h
