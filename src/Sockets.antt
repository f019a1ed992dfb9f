-- ===== src/Sockets.antt =====
-- http_connection.hpp: one type for the plain and the SSL stream of Boost.Asio, and `connection`,
-- which opens one. Every operation has an overload that throws and one that stores an error code.
pub mod Lifetime
pub mod Clients
use black_circle.Prelude.{ℕ, ◌≡◌, ◌≢◌, Bool, true, false, [], Option, some, Bytes}

-- `tcp_socket_stream` or `ssl_socket_stream`.
pub data Kind : Type 0 where
  tcp ssl : Kind

pub data HandshakeType : Type 0 where
  client server : HandshakeType

pub data ShutdownType : Type 0 where
  shutdown_receive shutdown_send shutdown_both : ShutdownType

-- What a call gives back: nothing, or the error code that it stored; what it read; how much it wrote;
-- an address.
pub data Answer (Endpoint : Type 0) : Type 0 where
  done : Answer Endpoint
  received : Bytes → Answer Endpoint
  transferred : ℕ → Answer Endpoint
  endpoint : Endpoint → Answer Endpoint

-- How a call ends: it returns, or throws the error code.
pub data Ended (Endpoint : Type 0) : Type 0 where
  gave : Answer Endpoint → Ended Endpoint
  thrown : ℕ → Ended Endpoint

-- What a call with an error code leaves: the state, the code, and how it ended.
pub record Coded (Net Endpoint : Type 0) : Type 0 where
  pub net : Net
  pub ec : ℕ
  pub ended : Ended Endpoint

-- The calls of Boost.Asio on a socket, on its lowest layer, and on an SSL stream.
pub data Call (Endpoint : Type 0) : Type 0 where
  layer_connect : Endpoint → Call Endpoint
  layer_close layer_cancel layer_local_endpoint layer_remote_endpoint : Call Endpoint
  socket_read_some : ℕ → Call Endpoint
  socket_write_some : Bytes → Call Endpoint
  socket_shutdown : ShutdownType → Call Endpoint
  stream_handshake : HandshakeType → Call Endpoint
  stream_shutdown : Call Endpoint

-- The calls that take a handler.
pub data AsyncCall (Endpoint : Type 0) : Type 0 where
  layer_async_connect : Endpoint → AsyncCall Endpoint
  socket_async_read_some : ℕ → AsyncCall Endpoint
  socket_async_write_some : Bytes → AsyncCall Endpoint
  stream_async_handshake : HandshakeType → AsyncCall Endpoint
  stream_async_shutdown : AsyncCall Endpoint

-- The overload of `c` with an error code, from the one that throws: the code is 0 unless that threw,
-- and what is given back then is empty.
abbrev pub caught :
    {Net Endpoint : Type 0} → Answer Endpoint → Net × Ended Endpoint → Coded Net Endpoint
caught empty (s, gave a) = record { net = s; ec = 0; ended = gave a }
caught empty (s, thrown e) = record { net = s; ec = e; ended = gave empty }

-- The overload that throws, called where an error code was given: that is left as it was.
abbrev pub kept : {Net Endpoint : Type 0} → ℕ → Net × Ended Endpoint → Coded Net Endpoint
kept ec (s, e) = record { net = s; ec = ec; ended = e }

-- What a call gives back with an error code other than 0.
abbrev pub empty_answer : {Endpoint : Type 0} → Endpoint → Call Endpoint → Answer Endpoint
empty_answer none_yet (socket_read_some n) = received []
empty_answer none_yet (socket_write_some b) = transferred 0
empty_answer none_yet layer_local_endpoint = endpoint none_yet
empty_answer none_yet layer_remote_endpoint = endpoint none_yet
empty_answer none_yet (layer_connect e) = done
empty_answer none_yet layer_close = done
empty_answer none_yet layer_cancel = done
empty_answer none_yet (socket_shutdown w) = done
empty_answer none_yet (stream_handshake h) = done
empty_answer none_yet stream_shutdown = done

-- Boost.Asio: the two overloads of each call on one socket, in a state of it, its service and the
-- network; `post` and the calls with a handler; a socket's constructor and destructor.
pub record Asio (Net Endpoint : Type 0) : Type 0 where
  pub throwing : Call Endpoint → Net → Net × Ended Endpoint
  pub coded : Call Endpoint → Net → Coded Net Endpoint
  pub start : AsyncCall Endpoint → ℕ → Net → Net
  pub post : ℕ → ℕ → Net → Net
  pub construct : Kind → Net → Net
  pub destroy : Net → Net
  pub is_open : Net → Bool
  pub no_endpoint : Endpoint
  -- The endpoint at the other side of the connection.
  pub peer : Net → Option Endpoint
  -- "Throws boost::system::system_error on failure"; "ec: set to indicate what error occurred, if
  -- any"; "returns 0 if an error occurred"; "a default-constructed endpoint object if an error
  -- occurred".
  pub overloads :
      (c : Call Endpoint) (s : Net) → coded c s ≡ caught (empty_answer no_endpoint c) (throwing c s)
  -- A `system_error` is thrown only with a code that says so.
  pub fails : (c : Call Endpoint) (s : Net) → (throwing c s).1 ≢ thrown 0
  -- "This function destroys the socket, cancelling any outstanding asynchronous operations [...] as
  -- if by calling socket.cancel()", and closes it.
  pub closes : (s : Net) → is_open (destroy s) ≡ false
  -- "If the socket is not already open, it is automatically opened", "even if the function
  -- indicates an error, the underlying descriptor is closed"; a handshake that succeeds leaves the
  -- socket open.
  pub opens :
      (e : Endpoint) (s : Net) (a : Answer Endpoint)
      → (throwing (layer_connect e) s).1 ≡ gave a
      → is_open (throwing (layer_connect e) s).0 ≡ true
  pub stays :
      (h : HandshakeType) (s : Net) (a : Answer Endpoint)
      → is_open s ≡ true
      → (throwing (stream_handshake h) s).1 ≡ gave a
      → is_open (throwing (stream_handshake h) s).0 ≡ true
  -- "Used to connect a socket to the specified remote endpoint"; a handshake is made over the
  -- connection that is there.
  pub connects_to :
      (e : Endpoint) (s : Net) (a : Answer Endpoint)
      → (throwing (layer_connect e) s).1 ≡ gave a
      → peer (throwing (layer_connect e) s).0 ≡ some e
  pub stays_with :
      (h : HandshakeType) (s : Net) (a : Answer Endpoint)
      → (throwing (stream_handshake h) s).1 ≡ gave a
      → peer (throwing (stream_handshake h) s).0 ≡ peer s
  pub shuts : (s : Net) → is_open (throwing layer_close s).0 ≡ false

-- The operations of `socket_stream_wrapper` that have both overloads. Those without an argument
-- stand for `handshake client` and `shutdown shutdown_both`.
pub data Operation (Endpoint : Type 0) : Type 0 where
  connect : Endpoint → Operation Endpoint
  handshake : HandshakeType → Operation Endpoint
  shutdown : ShutdownType → Operation Endpoint
  read_some : ℕ → Operation Endpoint
  write_some : Bytes → Operation Endpoint
  close local_endpoint remote_endpoint : Operation Endpoint

-- Those with a handler.
pub data AsyncOperation (Endpoint : Type 0) : Type 0 where
  async_connect : Endpoint → AsyncOperation Endpoint
  async_handshake : HandshakeType → AsyncOperation Endpoint
  async_read_some : ℕ → AsyncOperation Endpoint
  async_write_some : Bytes → AsyncOperation Endpoint
  async_shutdown : AsyncOperation Endpoint

module _ {Net Endpoint : Type 0} (lib : Asio Net Endpoint) where
  open lib use {throwing, coded, start, post, construct, destroy}

  unfoldable pub do_handshake : Kind → HandshakeType → Net → Net × Ended Endpoint
  do_handshake tcp type s = (s, gave done)
  do_handshake ssl type s = throwing (stream_handshake type) s

  unfoldable pub do_handshake_ec : Kind → HandshakeType → Net → Coded Net Endpoint
  do_handshake_ec tcp type s = record { net = s; ec = 0; ended = gave done }
  do_handshake_ec ssl type s = coded (stream_handshake type) s

  unfoldable pub do_shutdown : Kind → ShutdownType → Net → Net × Ended Endpoint
  do_shutdown tcp what s = throwing (socket_shutdown what) s
  do_shutdown ssl what s = throwing stream_shutdown s

  unfoldable pub do_shutdown_ec : Kind → ShutdownType → Net → Coded Net Endpoint
  do_shutdown_ec tcp what s = coded (socket_shutdown what) s
  do_shutdown_ec ssl what s = coded stream_shutdown s

  -- The overloads that throw.
  unfoldable pub operate : Kind → Operation Endpoint → Net → Net × Ended Endpoint
  unfolding do_handshake do_shutdown
  operate k (connect peer) s = throwing (layer_connect peer) s
  operate k (handshake type) s = do_handshake k type s
  operate k (shutdown what) s = do_shutdown k what s
  operate k (read_some n) s = throwing (socket_read_some n) s
  operate k (write_some b) s = throwing (socket_write_some b) s
  operate k close s = throwing layer_close s
  operate k local_endpoint s = throwing layer_local_endpoint s
  operate k remote_endpoint s = throwing layer_remote_endpoint s

  -- The overloads with an error code, whose value before is `ec`. Two of them call the one that
  -- throws.
  unfoldable pub operate_ec : Kind → Operation Endpoint → ℕ → Net → Coded Net Endpoint
  unfolding do_handshake_ec do_shutdown_ec
  operate_ec k (connect peer) ec s = coded (layer_connect peer) s
  operate_ec k (handshake type) ec s = do_handshake_ec k type s
  operate_ec k (shutdown what) ec s = do_shutdown_ec k what s
  operate_ec k (read_some n) ec s = coded (socket_read_some n) s
  operate_ec k (write_some b) ec s = kept ec (throwing (socket_write_some b) s)
  operate_ec k close ec s = coded layer_close s
  operate_ec k local_endpoint ec s = coded layer_local_endpoint s
  operate_ec k remote_endpoint ec s = kept ec (throwing layer_remote_endpoint s)

  -- The operations with a handler, a number.
  unfoldable pub operate_async : Kind → AsyncOperation Endpoint → ℕ → Net → Net
  operate_async k (async_connect peer) h s = start (layer_async_connect peer) h s
  operate_async tcp (async_handshake type) h s = post h 0 s
  operate_async ssl (async_handshake type) h s = start (stream_async_handshake type) h s
  operate_async k (async_read_some n) h s = start (socket_async_read_some n) h s
  operate_async k (async_write_some b) h s = start (socket_async_write_some b) h s
  operate_async tcp async_shutdown h s =
      let c = coded (socket_shutdown shutdown_both) s in post h c.ec c.net
  operate_async ssl async_shutdown h s = start stream_async_shutdown h s

  -- The end of the constructor of `connection`. If it throws, `pstream` destroys the stream.
  pub after_handshake : Net × Ended Endpoint → Net × Ended Endpoint
  after_handshake (s, gave a) = (s, gave done)
  after_handshake (s, thrown e) = (destroy s, thrown e)

  pub after_connect : Kind → Net × Ended Endpoint → Net × Ended Endpoint
  unfolding after_handshake operate
  after_connect k (s, thrown e) = (destroy s, thrown e)
  after_connect tcp (s, gave a) = (s, gave done)
  after_connect ssl (s, gave a) = after_handshake (operate ssl (handshake client) s)

  -- The constructors of `connection`, without a context and with one.
  unfoldable pub connection : Kind → Endpoint → Net → Net × Ended Endpoint
  unfolding after_connect operate
  connection k ep s = after_connect k (operate k (connect ep) (construct k s))

  -- `~connection`. Its `catch (...)` rethrows, since it stands around a destructor's whole body.
  unfoldable pub disconnect : Kind → Net → Net × Ended Endpoint
  unfolding operate_ec
  disconnect k s =
      let cancelled = coded layer_cancel s in
      let closed = operate_ec k close cancelled.ec cancelled.net in
      (destroy closed.net, closed.ended)
