-- ===== src/Tests/Sockets.antt =====
-- A connection that opens, and one whose peer has gone.
use black_circle.Prelude.{
  ◌≡◌, ◌≢◌, ℕ, arith, Bool, Option, none, some, true, false, refl, codes, if◌then◌else◌, ◌==◌,
  length, [],
}
use black_circle.Sockets.{
  tcp, ssl, client, Answer, done, Ended, gave, thrown, Call, layer_connect, layer_close,
  layer_cancel, layer_local_endpoint, layer_remote_endpoint, socket_read_some, socket_write_some,
  socket_shutdown, stream_handshake, stream_shutdown, Asio, caught, empty_answer, connect,
  handshake, write_some, operate_ec, connection, disconnect,
}
use black_circle.Http.{HttpClient, get_schema_string}
use black_circle.Sockets.Clients.{
  named, found, IsTarget, IsAt, Resolver, http_client, connected, abort, http_client_lem,
}
use black_circle.Sockets.Lifetime.{connection_lem}

-- The state is the peer of an open socket; an address is a number. The peer
-- accepts a connection and no handshake, and what is written to it breaks the pipe.
abbrev broken_pipe : Call ℕ → Option ℕ → Option ℕ × Ended ℕ
broken_pipe (layer_connect e) s = (some e, gave done)
broken_pipe layer_close s = (none, gave done)
broken_pipe layer_cancel s = (s, gave done)
broken_pipe layer_local_endpoint s = (s, gave done)
broken_pipe layer_remote_endpoint s = (s, thrown 107)
broken_pipe (socket_read_some n) s = (s, thrown 2)
broken_pipe (socket_write_some b) s = (s, thrown 32)
broken_pipe (socket_shutdown w) s = (s, gave done)
broken_pipe (stream_handshake h) s = (s, thrown 1)
broken_pipe stream_shutdown s = (s, gave done)

broken_pipe_fails : (c : Call ℕ) (s : Option ℕ) → (broken_pipe c s).1 ≢ thrown 0
broken_pipe_fails (layer_connect e) s = cc
broken_pipe_fails layer_close s = cc
broken_pipe_fails layer_cancel s = cc
broken_pipe_fails layer_local_endpoint s = cc
broken_pipe_fails layer_remote_endpoint s = ground arith
broken_pipe_fails (socket_read_some n) s = ground arith
broken_pipe_fails (socket_write_some b) s = ground arith
broken_pipe_fails (socket_shutdown w) s = cc
broken_pipe_fails (stream_handshake h) s = ground arith
broken_pipe_fails stream_shutdown s = cc

abbrev is_some : Option ℕ → Bool
is_some none = false
is_some (some e) = true

abbrev gone_peer : Asio (Option ℕ) ℕ
gone_peer = record {
  throwing = broken_pipe;
  coded = λ c s. caught (empty_answer 0 c) (broken_pipe c s);
  start = λ c h s. s;
  post = λ h ec s. s;
  construct = λ k s. none;
  destroy = λ s. none;
  is_open = is_some;
  no_endpoint = 0;
  peer = λ s. s;
  overloads = λ c s. refl;
  fails = broken_pipe_fails;
  closes = λ s. refl;
  opens = λ e s a h. refl;
  stays = λ h s a o e. cc;
  connects_to = λ e s a h. refl;
  stays_with = λ h s a e. cc;
  shuts = λ s. refl;
}

write_some_throws :
    operate_ec gone_peer tcp (write_some (codes "GET")) 0 (some 7)
    ≡ record { net = some 7; ec = 0; ended = thrown 32 }
unfolding operate_ec
write_some_throws = refl

connection_run : connection gone_peer ssl 7 none ≡ (none, thrown 1)
unfolding connection
connection_run = refl

connection_lem_example :
    let c = operate_ec gone_peer ssl (connect 7) 0 none in
    let h = operate_ec gone_peer ssl (handshake client) 0 c.net in
    (connection gone_peer ssl 7 none ≡ (
      if c.ec == 0
      then (if h.ec == 0 then (h.net, gave done) else (none, thrown h.ec))
      else (none, thrown c.ec)))
    × ◌≡◌ {A = Bool} false false
    × ◌≡◌ {A = Bool} false false
    × ((a : Answer ℕ) × ((disconnect gone_peer ssl none).1 ≡ gave a))
    × (is_some (disconnect gone_peer ssl none).0 ≡ false)
connection_lem_example = connection_lem gone_peer ssl 7 none

-- Names are found at their length.
abbrev names : Resolver (Option ℕ) ℕ
names = record { resolve = λ host service s. (s, found (length host)); address = λ e. codes "7" }

abbrev plain_client : HttpClient
plain_client = record { host = codes "example"; path = []; query = []; header = []; secure = false }

http_client_lem_example :
    ((e : ℕ) × IsTarget gone_peer names (named (codes "example")) (codes "http") none e
      × IsAt gone_peer names e (some 7))
    × (plain_client.host ≡ codes "example")
    × (get_schema_string plain_client ≡ codes "http")
    × (connected gone_peer names (abort gone_peer names tcp (some 7)) ≡ false)
unfolding http_client connection
http_client_lem_example =
    http_client_lem gone_peer names tcp (named (codes "example")) none (some 7) plain_client refl
