-- ===== src/Tests/Data.antt =====
-- Stand-ins for the libraries, and the inputs of the tests.
use black_circle.Twitter.Types.{Platform, Fresh, Stores}
use black_circle.Twitter.Build.Keeps.{IsStores}
use black_circle.Prelude.{
  true, false, ltb, ℕ, ◌+◌, ◌%◌, ◌≡◌, arith, [], ◌∷◌, some, Bytes, AllBytes, codes, length, subst,
}
use mathlib.Core.Option.{some-injective}
use black_circle.OAuth.{Crypto, Draw}

-- A digest that depends on the lengths alone.
abbrev sum_of : Bytes → Bytes → Bytes
sum_of key message = (length key % 256) ∷ (length message % 256) ∷ []

pub sum_of_bytes :
    (key message : Bytes) {d : Bytes} → some (sum_of key message) ≡ some d → AllBytes d
sum_of_bytes key message e = subst AllBytes (some-injective _ _ e) (omega arith, (omega arith, tt))

abbrev digit : ℕ → Bytes
digit t = (48 + t % 10) ∷ []

abbrev pub crypto : Crypto
crypto = record {
  hmac_sha1 = λ key message. some (sum_of key message);
  md5 = λ a. (length a % 256) ∷ [];
  time_string = digit;
  hmac_sha1_bytes = λ key message e. sum_of_bytes key message e;
  md5_bytes = λ a. (omega arith, tt);
  time_string_bytes = λ t. (omega arith, tt);
}

abbrev pub draw : Draw
draw = record { random = 7 ∷ 200 ∷ []; nonce_time = 1; stamp_time = 2; connects = true }

abbrev pub uri : Bytes
uri = codes "http://a.b/c"

pub ltb_irrefl : (a : ℕ) → ltb a a ≡ false
ltb_irrefl a = ground arith

pub ltb_trans : (a b c : ℕ) → ltb a b ≡ true → ltb b c ≡ true → ltb a c ≡ true
ltb_trans a b c h k = ground arith

-- A date is a number, the sum of the bytes of its text.
abbrev sum : Bytes → ℕ
sum [] = 0
sum (c ∷ s) = Prim.Native.Nat.◌+◌ c (sum s)

abbrev pub platform : Platform
platform = record {
  Time = ℕ;
  time_lt = λ a b. ltb a b;
  time_lt_irrefl = λ a. ltb_irrefl a;
  time_lt_trans = λ a b c h k. ltb_trans a b c h k;
  parse_time = sum;
  time_string = λ t. t ∷ [];
  strtoul16 = sum;
  Double = ℕ;
}

abbrev pub unset : Fresh ℕ
unset = record { now = 0; number = 77; flag = false }

abbrev pub empty : Stores ℕ
empty = record { users = []; tweets = [] }

pub empty-IsStores : IsStores platform empty
empty-IsStores = record { users_ok = tt; tweets_ok = tt }
