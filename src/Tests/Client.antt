-- ===== src/Tests/Client.antt =====
-- A client that listens, posts and then loses its user stream.
use black_circle.Prelude.{ℕ, refl, true, false, arith, [], Option, some, none, Bytes, codes}
use black_circle.Json.{Value, array, nil}
use black_circle.OAuth.{token_requester}
use black_circle.OAuth.Server.{secrets_key}
use black_circle.OAuth.Invariant.{Reachable-IsValid, fresh}
use black_circle.Twitter.Build.Keeps.{IsStores}
use black_circle.Client.{TwitterClient, make_userstream, statuses_update}
use black_circle.Client.Session.{IsSession, Acts, listen, tweet, start, act, Acts-IsSession}
use black_circle.Client.Handler.{http_handler, api_friends_timeline}
use black_circle.Client.Handler.Answers.{http_handler-keeps}
use black_circle.Tests.Data.{crypto, draw, platform, unset, empty, empty-IsStores}

abbrev pub idle : TwitterClient
idle = record { req = token_requester; ust = none; next = 0; sent = []; stopped = false }

abbrev listening : TwitterClient
listening = (make_userstream crypto draw idle).0

abbrev posted : TwitterClient
posted = (statuses_update crypto (codes "hi!") draw listening).0

posted-Acts : Acts crypto idle posted
posted-Acts = act (act start (listen idle draw)) (tweet listening (codes "hi!") draw (omega arith))

Acts-IsSession_example : IsSession crypto (secrets_key [] []) posted
unfolding token_requester
Acts-IsSession_example =
    Acts-IsSession {c = crypto} {t = idle} {u = posted} (Reachable-IsValid {c = crypto} fresh) refl
      refl refl posted-Acts

-- Every text is an empty array.
abbrev no_json : Bytes → Option (Value ℕ)
no_json s = some (array nil)

http_handler-keeps_example :
    IsSession crypto
      (secrets_key [] [])
      (http_handler platform unset no_json crypto draw api_friends_timeline 1 none true posted
        empty).client
    × IsStores platform
        (http_handler platform unset no_json crypto draw api_friends_timeline 1 none true posted
          empty).stores
http_handler-keeps_example =
    http_handler-keeps platform unset no_json crypto draw (secrets_key [] []) api_friends_timeline 1
      none true posted empty Acts-IsSession_example empty-IsStores
