-- ===== src/OAuth/Header.antt =====
-- The `Authorization` of section 5.4.1 of the OAuth core, as a server reads it.
use mathlib.Core.Option
use black_circle.Prelude.{
  ◌≡◌, ◌≢◌, refl, ap, ◌∙◌, true, false, arith, List, [], ◌∷◌, ◌++◌, append-nil, Option, none, some,
  Bytes, AllBytes, codes, ◌==◌, All, All-append, if◌then◌else◌,
}
use black_circle.Util.Escape.{url_escape}
use black_circle.Util.Escape.Decode.{
  IsSafe, url_unescape, url_unescape-url_escape, url_escape-IsSafe,
}
use black_circle.StringMap.{StringMap}
use black_circle.OAuth.Query.{Lacks, split, split-Lacks, split_at, tail_of, make_request-cons}
use black_circle.OAuth.Server.{all_unreserved, IsPlain}
use black_circle.OAuth.{combine_as_post_param, make_request, TokenRequester, gen_postparam}

-- A text without what stands before it.
strip : Bytes → Bytes → Option Bytes
strip [] s = some s
strip (c ∷ p) [] = none
strip (c ∷ p) (d ∷ s) = let rest = strip p s in if c == d then rest else none

trim : Bytes → Bytes
trim [] = []
trim (c ∷ s) = let rest = trim s in if c == b' ' then rest else c ∷ s

-- What stands before a quote that ends the text.
until_quote : Bytes → Option Bytes
until_quote [] = none
until_quote (c ∷ []) = if c == b'"' then some [] else none
until_quote (c ∷ d ∷ s) =
    let rest = until_quote (d ∷ s) in if c == b'"' then none else Option.map (◌∷◌ c) rest

unquote : Bytes → Option Bytes
unquote [] = none
unquote (c ∷ s) = if c == b'"' then until_quote s else none

unquote_value : Bytes → Option Bytes
unquote_value s = elim (unquote s) [ none ↦ none | some v ↦ url_unescape v ]

-- A part is a key, `=` and an escaped value in quotes.
parse_part : Bytes → Option (Bytes × Bytes)
parse_part [] = none
parse_part (c ∷ s) =
    let rest = parse_part s in
    elim (c == b'=') [
      | true ↦ Option.map (λ v. ([], v)) (unquote_value s)
      | false ↦ Option.map (λ p. (c ∷ p.0, p.1)) rest
    ]

-- The parts, with white space before them.
parse_parts : List Bytes → Option (StringMap Bytes)
parse_parts [] = some []
parse_parts (s ∷ ss) = elim (parse_part (trim s)) [
  | none ↦ none
  | some p ↦ Option.map (◌∷◌ p) (parse_parts ss)
]

parse_list : Bytes → Option (StringMap Bytes)
parse_list s = parse_parts (split b',' s)

pub parse_authorization : Bytes → Option (StringMap Bytes)
parse_authorization s = elim (strip (codes "OAuth ") s) [ none ↦ none | some l ↦ parse_list l ]

strip-append : (p s : Bytes) → strip p (p ++ s) ≡ some s
unfolding strip
strip-append [] s = refl
strip-append (c ∷ p) s = ground (arith, strip-append p s)

until_quote_lem : (v : Bytes) → All IsSafe v → until_quote (v ++ (b'"' ∷ [])) ≡ some v
unfolding until_quote
until_quote_lem [] h = refl
until_quote_lem (c ∷ []) h = ground arith
until_quote_lem (c ∷ d ∷ v) h = ground (arith, until_quote_lem (d ∷ v) h.1)

unquote_value_lem :
    (v : Bytes) → AllBytes v → unquote_value (b'"' ∷ (url_escape v ++ (b'"' ∷ []))) ≡ some v
unfolding unquote_value unquote
unquote_value_lem v b =
    rw (until_quote_lem (url_escape v) (url_escape-IsSafe v b), unquote_value)
      (url_unescape-url_escape v b)

parse_part-apply :
    (k v : Bytes)
    → all_unreserved k ≡ true
    → AllBytes v
    → parse_part (combine_as_post_param.apply (k, v)) ≡ some (k, v)
unfolding parse_part
parse_part-apply [] v h b = rw (unquote_value_lem v b)
parse_part-apply (c ∷ k) v h b = ground (arith, parse_part-apply k v)

IsSafe-Lacks : (s : Bytes) → All IsSafe s → Lacks b',' s
IsSafe-Lacks [] h = tt
IsSafe-Lacks (c ∷ s) h = (λ eq. ground arith, IsSafe-Lacks s h.1)

plain-Lacks : (s : Bytes) → all_unreserved s ≡ true → Lacks b',' s
plain-Lacks [] h = tt
plain-Lacks (c ∷ s) h = (λ eq. ground arith, plain-Lacks s (ground arith))

-- A part of the list: a pair, as `gen_postparam` writes it.
abbrev pub IsPart : Bytes × Bytes → Type 0
IsPart p = IsPlain p × AllBytes p.1

apply-Lacks : (p : Bytes × Bytes) → IsPart p → Lacks b',' (combine_as_post_param.apply p)
apply-Lacks p h = All-append _ p.0 _ (plain-Lacks p.0 h.0) (
  omega arith,
  (
    omega arith,
    All-append _ (url_escape p.1) _ (IsSafe-Lacks (url_escape p.1) (url_escape-IsSafe p.1 h.1))
        (omega arith, tt),
  ),
)

trim_space : (s : Bytes) → trim (b' ' ∷ s) ≡ trim s
unfolding trim
trim_space s = refl

trim-apply :
    (p : Bytes × Bytes)
    → IsPart p
    → trim (combine_as_post_param.apply p) ≡ combine_as_post_param.apply p
unfolding trim
trim-apply ([], v) h = refl
trim-apply (c ∷ k, v) h = ground arith

parse_trimmed :
    (p : Bytes × Bytes) → IsPart p → parse_part (trim (combine_as_post_param.apply p)) ≡ some p
parse_trimmed p h = ap parse_part (trim-apply p h) ∙ parse_part-apply p.0 p.1 h.0 h.1

parse_parts-cons :
    (s : Bytes) (ss : List Bytes) (p : Bytes × Bytes) (m : StringMap Bytes)
    → parse_part (trim s) ≡ some p
    → parse_parts ss ≡ some m
    → parse_parts (s ∷ ss) ≡ some (p ∷ m)
unfolding parse_parts
parse_parts-cons s ss p m h t = ground arith

parse_list_lem :
    (x : Bytes) (p : Bytes × Bytes) (m : StringMap Bytes)
    → Lacks b',' x
    → parse_part (trim x) ≡ some p
    → All IsPart m
    → parse_list (x ++ tail_of combine_as_post_param m) ≡ some (p ∷ m)
unfolding parse_list tail_of
parse_list_lem x p [] l e h =
    ap (λ t. parse_parts (split b',' t)) (append-nil x)
    ∙ ap parse_parts (split-Lacks b',' x l)
    ∙ parse_parts-cons x [] p [] e (unfold parse_parts in refl)
parse_list_lem x p (q ∷ m) l e h =
    let y = b' ' ∷ combine_as_post_param.apply q in
    ap parse_parts (split_at b',' x (y ++ tail_of combine_as_post_param m) l)
    ∙ parse_parts-cons x _ p (q ∷ m) e (
        parse_list_lem y q m (omega arith, apply-Lacks q h.0)
          (ap parse_part (trim_space (combine_as_post_param.apply q)) ∙ parse_trimmed q h.0) h.1)

-- What a server reads from the `Authorization` of a requester.
pub parse_authorization-gen_postparam :
    (r : TokenRequester)
    → r.params ≢ []
    → All IsPart r.params
    → parse_authorization (codes "OAuth " ++ gen_postparam r) ≡ some r.params
unfolding gen_postparam parse_authorization
parse_authorization-gen_postparam r ne h =
    rw (strip-append (codes "OAuth ") (gen_postparam r), parse_authorization) (list r.params ne h)
  where
    list :
        (m : StringMap Bytes)
        → m ≢ []
        → All IsPart m
        → parse_list (make_request combine_as_post_param m) ≡ some m
    list [] ne h = absurd (ne refl)
    list (p ∷ m) ne h =
        ap parse_list (make_request-cons combine_as_post_param p m)
        ∙ parse_list_lem (combine_as_post_param.apply p) p m (apply-Lacks p h.0)
            (parse_trimmed p h.0) h.1
