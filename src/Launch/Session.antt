-- ===== src/Launch/Session.antt =====
-- What the program sends, from its start.
use black_circle.OAuth.{TokenRequester, token_requester, set_consumer}
use black_circle.Launch.{consumer_key, consumer_secret}

abbrev configured : TokenRequester
configured = set_consumer consumer_key consumer_secret token_requester
