-- ===== src/Client/Handler/Objects.antt =====
-- `http_handler` on an object of the user stream.
use black_circle.Prelude.{ℕ, true, false, ◌≡◌, refl, [], ◌∷◌, Option, none, some, Bytes}
use black_circle.Prelude.Int.{pos}
use black_circle.Json.{Value}
use black_circle.OAuth.{Crypto, Draw, returned}
use black_circle.Http.{Response}
use black_circle.Twitter.Types.{Platform, Fresh, Stores}
use black_circle.Entity.{process_single_entity}
use black_circle.Client.{TwitterClient}
use black_circle.Client.Handler.{
  replies, api_user_stream, has_brace, handle_value, handle_text, handle_response, after_check,
  is_closed, http_handler,
}

not_closed : (u : Option ℕ) → is_closed true u ≡ false
not_closed none = refl
not_closed (some p) = refl

-- While the stream is open, a text with an object in it is processed once, and nothing is sent.
pub http_handler_object :
    (P : Platform) (f : Fresh P.Time) (parse_json : Bytes → Option (Value P.Double)) (c : Crypto)
    (d : Draw) (p : ℕ) (r : Response) (v : Value P.Double) (t : TwitterClient) (s : Stores P.Time)
    → r.code ≡ pos 200
    → parse_json r.content ≡ some v
    → has_brace r.content ≡ true
    → http_handler P f parse_json c d api_user_stream p (some r) true t s ≡ record {
      client = t;
      stores = (process_single_entity P f v s).0;
      report = replies ((process_single_entity P f v s).1 ∷ []);
      outcome = returned;
    }
unfolding http_handler after_check handle_response handle_text handle_value
http_handler_object P f parse_json c d p r v t s code parsed brace =
    rw (not_closed t.ust) (rw code (rw (parsed, handle_text) (rw brace)))
