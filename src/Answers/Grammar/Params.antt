-- ===== src/Answers/Grammar/Params.antt =====
-- The parameters in the body of an answer.
use black_circle.Prelude.{
  ◌≡◌, ◌≢◌, refl, sym, append-nil, ap, ◌∙◌, arith, List, [], ◌∷◌, ◌++◌, append_assoc, Bytes, codes,
  All, length-append,
}
use black_circle.Qi.{Qi, strip, span, matched, failed}
use black_circle.Qi.Rules.{
  IsWord, Ends, seq_matched, seq_failed, seq_stuck, word_matched, lit_matched, print_all,
  many_matched,
}
use black_circle.Answers.Grammar.{
  param, params_of, line_of, insert_all, insert_lines-map, split_params,
}

-- A parameter that can be read: both parts are there, and neither holds what ends it.
abbrev pub IsParam : Bytes × Bytes → Type 0
IsParam p = (p.0 ≢ []) × IsWord (codes "=") p.0 × (p.1 ≢ []) × IsWord (codes "&") p.1

-- A parameter up to the `&`, and with it.
abbrev pub open_text : Bytes × Bytes → Bytes
open_text p = p.0 ++ (b'=' ∷ p.1)

abbrev pub param_text : Bytes × Bytes → Bytes
param_text p = open_text p ++ codes "&"

module _ (q : Qi) where
  open q use {run, lit, some_but, seq, many}

  key_value :
      (p : Bytes × Bytes) (s : Bytes)
      → IsParam p
      → Ends (codes "&") s
      → run
          (seq (seq (some_but (codes "=")) (lit (codes "="))) (some_but (codes "&")))
          (p.0 ++ (b'=' ∷ (p.1 ++ s)))
        ≡ matched ((p.0, tt), p.1) s
  key_value p s (kne, k, vne, v) e =
      seq_matched q (seq (some_but (codes "=")) (lit (codes "="))) (some_but (codes "&"))
        (seq_matched q (some_but (codes "=")) (lit (codes "="))
          (word_matched q (codes "=") p.0 (b'=' ∷ (p.1 ++ s)) kne k refl)
          (lit_matched q (codes "=") (p.1 ++ s)))
        (word_matched q (codes "&") p.1 s vne v e)

  open_append : (p : Bytes × Bytes) (s : Bytes) → open_text p ++ s ≡ p.0 ++ (b'=' ∷ (p.1 ++ s))
  open_append p s = append_assoc p.0 (b'=' ∷ p.1) s

  param_matched :
      (p : Bytes × Bytes) (s : Bytes)
      → IsParam p
      → run (param q) (param_text p ++ s) ≡ matched (line_of p) s
  param_matched p s h =
      ap (run (param q)) (append_assoc (open_text p) (codes "&") s ∙ open_append p (b'&' ∷ s))
      ∙ seq_matched q (seq (seq (some_but (codes "=")) (lit (codes "="))) (some_but (codes "&")))
          (lit (codes "&")) (key_value p (b'&' ∷ s) h refl) (lit_matched q (codes "&") s)

  -- A parameter with no `&` behind it.
  param_stuck : (p : Bytes × Bytes) → IsParam p → run (param q) (open_text p) ≡ failed
  unfolding strip
  param_stuck p h =
      ap (run (param q)) (sym (append-nil (open_text p)) ∙ open_append p [])
      ∙ seq_stuck q (seq (seq (some_but (codes "=")) (lit (codes "="))) (some_but (codes "&")))
          (lit (codes "&")) (key_value p [] h tt) (q.run-lit (codes "&") [])

  params_matched :
      (ps : List (Bytes × Bytes)) (rest : Bytes)
      → All IsParam ps
      → run (param q) rest ≡ failed
      → split_params q (print_all param_text ps ++ rest) ≡ insert_all ps []
  unfolding split_params
  params_matched ps rest h stop =
      ap (params_of q) (
        many_matched q (param q) param_text line_of IsParam param_matched
          (λ p g.
            omega (arith, length-append (open_text p) (codes "&"), length-append p.0 (b'=' ∷ p.1)))
          rest stop ps h)
      ∙ insert_lines-map ps []

  param_nil : run (param q) [] ≡ failed
  unfolding span
  param_nil =
      seq_failed q (seq (seq (some_but (codes "=")) (lit (codes "="))) (some_but (codes "&")))
        (lit (codes "&"))
        (seq_failed q (seq (some_but (codes "=")) (lit (codes "="))) (some_but (codes "&"))
          (seq_failed q (some_but (codes "=")) (lit (codes "=")) (q.run-some_but (codes "=") [])))

  -- Of a body in which an `&` stands behind each parameter every one is read, in order, and the
  -- first of each key counts; a parameter behind the last `&` is lost.
  pub split_params_lem :
      (ps : List (Bytes × Bytes)) (last : Bytes × Bytes)
      → All IsParam ps
      → IsParam last
      → (split_params q (print_all param_text ps) ≡ insert_all ps [])
        × (split_params q (print_all param_text ps ++ open_text last) ≡ insert_all ps [])
  split_params_lem ps last h l = (
    ap (split_params q) (sym (append-nil (print_all param_text ps)))
        ∙ params_matched ps [] h param_nil,
    params_matched ps (open_text last) h (param_stuck last l),
  )
