-- ===== src/Util/Base64/Rounds.antt =====
-- `base64_encode` as the text of three bytes at a time.
use black_circle.Prelude.{
  ℕ, zero, suc, ◌+◌, ◌*◌, ◌/◌, ◌%◌, ◌^◌, ◌≤◌, ◌<◌, [], ◌∷◌, ◌++◌, ◌≡◌, refl, ap, ◌∙◌, arith, bit_or,
  append-nil, append_assoc, length, Bytes, AllBytes, ltb, if◌then◌else◌,
}
use black_circle.Prelude.Bits.{or_low, and_63}
use black_circle.Util.Base64.{
  base64_convert_single, Group, read_group, emit_group, encode_loop, base64_encode,
}

-- `|` of the shifted accumulator and a byte is their sum, while three bytes fit.
or-shl8 : (t c : ℕ) → t < 2 ^ 16 → c < 256 → bit_or ((t * 2 ^ 8) % 2 ^ 32) c ≡ t * 256 + c
or-shl8 t c ht hc =
    let fits : (t * 2 ^ 8) % 2 ^ 32 ≡ t * 2 ^ 8 = omega arith in rw fits (or_low 8 t c hc)

abbrev pub sixth : ℕ → ℕ
sixth v = base64_convert_single v

-- The text of one, two and three bytes, and of any number, with no accumulator.
abbrev pub of_1 : ℕ → Bytes
of_1 a = sixth (a / 4) ∷ sixth (a % 4 * 16) ∷ b'=' ∷ b'=' ∷ []

abbrev pub of_2 : ℕ → ℕ → Bytes
of_2 a b = sixth (a / 4) ∷ sixth (a % 4 * 16 + b / 16) ∷ sixth (b % 16 * 4) ∷ b'=' ∷ []

abbrev pub of_3 : ℕ → ℕ → ℕ → Bytes
of_3 a b c =
    sixth (a / 4) ∷ sixth (a % 4 * 16 + b / 16) ∷ sixth (b % 16 * 4 + c / 64) ∷ sixth (c % 64) ∷ []

unfoldable pub encoded : Bytes → Bytes
encoded [] = []
encoded (a ∷ []) = of_1 a
encoded (a ∷ b ∷ []) = of_2 a b
encoded (a ∷ b ∷ c ∷ s) = of_3 a b c ++ encoded s

abbrev mk : ℕ → ℕ → Bytes → Group
mk tmp pad rest = record { tmp = tmp; pad = pad; rest = rest }

read_group-1 : (a : ℕ) → a < 256 → read_group 3 0 0 (a ∷ []) ≡ mk (a * 65536) 2 []
unfolding read_group
read_group-1 a ha = ground (arith, or-shl8 0 a)

read_group-2 :
    (a b : ℕ) → a < 256 → b < 256 → read_group 3 0 0 (a ∷ b ∷ []) ≡ mk (a * 65536 + b * 256) 1 []
unfolding read_group
read_group-2 a b ha hb = ground (arith, or-shl8 0 a, or-shl8 a b)

read_group-3 :
    (a b c : ℕ) (s : Bytes)
    → a < 256
    → b < 256
    → c < 256
    → read_group 3 0 0 (a ∷ b ∷ c ∷ s) ≡ mk (a * 65536 + b * 256 + c) 0 s
unfolding read_group
read_group-3 a b c s ha hb hc = ground (arith, or-shl8 0 a, or-shl8 a b, or-shl8 (a * 256 + b) c)

emit_group_lem :
    (tmp pad : ℕ)
    → emit_group tmp pad
      ≡ sixth (tmp / 262144 % 64)
        ∷ sixth (tmp / 4096 % 64)
        ∷ (if ltb 1 pad then b'=' else sixth (tmp / 64 % 64))
        ∷ (if ltb 0 pad then b'=' else sixth (tmp % 64))
        ∷ []
unfolding emit_group
emit_group_lem tmp pad =
    rw (and_63 (tmp / 262144), and_63 (tmp / 4096), and_63 (tmp / 64), and_63 tmp)

emit_group-1 : (a : ℕ) → a < 256 → emit_group (a * 65536) 2 ≡ of_1 a
emit_group-1 a ha = rw emit_group_lem (ground arith)

emit_group-2 : (a b : ℕ) → a < 256 → b < 256 → emit_group (a * 65536 + b * 256) 1 ≡ of_2 a b
emit_group-2 a b ha hb = rw emit_group_lem (ground arith)

emit_group-3 :
    (a b c : ℕ) → a < 256 → b < 256 → c < 256 → emit_group (a * 65536 + b * 256 + c) 0 ≡ of_3 a b c
emit_group-3 a b c ha hb hc = rw emit_group_lem (ground arith)

encode_loop_round :
    (f tmp pad a : ℕ) (s rest ret : Bytes)
    → read_group 3 0 0 (a ∷ s) ≡ mk tmp pad rest
    → encode_loop (suc f) (a ∷ s) ret ≡ encode_loop f rest (ret ++ emit_group tmp pad)
unfolding encode_loop
encode_loop_round f tmp pad a s rest ret e =
    ap (λ (g : Group). encode_loop f g.rest (ret ++ emit_group g.tmp g.pad)) e

encode_loop-nil : (f : ℕ) (ret : Bytes) → encode_loop f [] ret ≡ ret
unfolding encode_loop
encode_loop-nil f ret = refl

encode_loop-encoded :
    (fuel : ℕ) (s ret : Bytes)
    → length s ≤ fuel
    → AllBytes s
    → encode_loop fuel s ret ≡ ret ++ encoded s
unfolding encoded
encode_loop-encoded fuel [] ret h all = rw (encode_loop-nil, append-nil)
encode_loop-encoded zero (a ∷ s) ret h all = absurd (omega arith)
encode_loop-encoded (suc f) (a ∷ []) ret h all =
    rw (encode_loop_round f _ _ a [] [] ret (read_group-1 a all.0), encode_loop-nil)
      (ap (◌++◌ ret) (emit_group-1 a all.0))
encode_loop-encoded (suc f) (a ∷ b ∷ []) ret h all =
    rw (encode_loop_round f _ _ a (b ∷ []) [] ret (read_group-2 a b all.0 all.1.0), encode_loop-nil)
      (ap (◌++◌ ret) (emit_group-2 a b all.0 all.1.0))
encode_loop-encoded (suc f) (a ∷ b ∷ c ∷ s) ret h all =
    rw
      (
        encode_loop_round f _ _ a (b ∷ c ∷ s) s ret (read_group-3 a b c s all.0 all.1.0 all.1.1.0),
        emit_group-3 a b c all.0 all.1.0 all.1.1.0,
      )
      (encode_loop-encoded f s (ret ++ of_3 a b c) (omega arith) all.1.1.1 ∙ rw append_assoc)

pub base64_encode-encoded : (s : Bytes) → AllBytes s → base64_encode s ≡ encoded s
unfolding base64_encode
base64_encode-encoded s all = encode_loop-encoded (length s) s [] (omega arith) all
