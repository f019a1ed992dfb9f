-- ===== src/Http.antt =====
-- http_client.hpp and the writing half of http_client_inst.cc: a request as it goes out.
use black_circle.Prelude.{
  ℕ, Bool, [], ◌∷◌, ◌++◌, none, some, Bytes, codes, length, ◌==◌, if◌then◌else◌,
}
use black_circle.Prelude.Int.{ℤ}
use black_circle.StringMap.{StringMap, find}

-- `map_get_or` of util.hpp.
unfoldable pub map_get_or {ℓ} : {V : Type ℓ} → StringMap V → Bytes → V → V
map_get_or m k v = elim (find k m) [ none ↦ v | some x ↦ x ]

-- `http_response_data`: `status`, `header` and `data`.
pub record Response : Type 0 where
  pub code : ℤ
  pub reason : Bytes
  pub header : StringMap Bytes
  pub content : Bytes

-- The public members of an `http_client`, and whether its connection has an SSL context.
pub record HttpClient : Type 0 where
  pub host : Bytes
  pub path : Bytes
  pub query : Bytes
  pub header : StringMap Bytes
  pub secure : Bool

abbrev pub get_schema_string : HttpClient → Bytes
get_schema_string c = if c.secure then codes "https" else codes "http"

abbrev pub get_uri : HttpClient → Bytes
get_uri c = get_schema_string c ++ (codes "://" ++ (c.host ++ c.path))

-- The method, as the first word of the header.
abbrev pub method_of : Bytes → Bytes
method_of [] = codes "GET"
method_of (_ ∷ _) = codes "POST"

-- `*(string << ':' << string << "\r\n")`.
pub header_lines : StringMap Bytes → Bytes
header_lines [] = []
header_lines (p ∷ m) = p.0 ++ (b':' ∷ (p.1 ++ (codes "\r\n" ++ header_lines m)))

-- `uint_`, which writes a number, is Boost's.
module _ (uint : ℕ → Bytes) where
  abbrev content_length : Bytes → Bytes
  content_length [] = []
  content_length (c ∷ s) = codes "Content-Length: " ++ (uint (length (c ∷ s)) ++ codes "\r\n")

  unfoldable pub generate_http_header : HttpClient → Bytes → Bytes
  unfolding header_lines
  generate_http_header c body =
      method_of body
      ++ (b' '
          ∷ (get_uri c
              ++ ((if length c.query == 0 then [] else b'?' ∷ [])
                  ++ (c.query
                      ++ (codes " HTTP/1.1\r\nHost: "
                          ++ (c.host
                              ++ (codes "\r\n"
                                  ++ (header_lines c.header
                                      ++ (content_length body ++ codes "\r\n")))))))))

  -- What `send_request` writes to the connection.
  unfoldable pub send_request : HttpClient → Bytes → Bytes
  send_request c body = generate_http_header c body ++ body
