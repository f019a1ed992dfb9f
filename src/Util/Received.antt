-- ===== src/Util/Received.antt =====
-- What a server makes of the two encodings of util.hpp.
use black_circle.Prelude.{◌≡◌, some, Bytes, AllBytes}
use black_circle.Util.Escape.{url_escape}
use black_circle.Util.Escape.Decode.{url_unescape, url_unescape-url_escape}
use black_circle.Util.Base64.{base64_encode}
use black_circle.Util.Base64.Decode.{base64_decode, base64_decode-base64_encode}

-- Of any bytes, all 256 values included: a server that percent-decodes what `url_escape` wrote reads
-- them, and one that decodes what `base64_encode` wrote does, so nothing is lost at the padding, and the
-- loop of the encoder ends by its test.
pub encodings_received :
    (s : Bytes)
    → AllBytes s
    → (url_unescape (url_escape s) ≡ some s) × (base64_decode (base64_encode s) ≡ some s)
encodings_received s h = (url_unescape-url_escape s h, base64_decode-base64_encode s h)
