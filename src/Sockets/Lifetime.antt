-- ===== src/Sockets/Lifetime.antt =====
-- Opening and closing a connection.
use black_circle.Prelude.{ℕ, zero, suc, ◌≡◌, ◌≢◌, refl, false, arith, ◌==◌, if◌then◌else◌}
use black_circle.Sockets.{
  Kind, tcp, ssl, client, done, Ended, gave, thrown, Asio, caught, layer_connect, layer_close,
  layer_cancel, stream_handshake, Answer, connect, handshake, close, operate, operate_ec,
  after_connect, after_handshake, connection, disconnect,
}

not_zero : (e : ℕ) → (suc e == 0) ≡ false
not_zero e = ground arith

module _ {Net Endpoint : Type 0} (lib : Asio Net Endpoint) where
  open lib use {throwing, coded, construct, destroy, is_open, overloads, fails}

  after_handshake-caught :
      (r : Net × Ended Endpoint)
      → r.1 ≢ thrown 0
      → after_handshake lib r ≡ (
          if (caught done r).ec == 0
          then ((caught done r).net, gave done)
          else (destroy (caught done r).net, thrown (caught done r).ec))
  unfolding after_handshake
  after_handshake-caught (s, gave a) ok = refl
  after_handshake-caught (s, thrown zero) ok = absurd (ok refl)
  after_handshake-caught (s, thrown (suc e)) ok = rw (not_zero e) refl

  -- The second step of a constructor, from where the first has left the network.
  secured : Kind → Net → Net × Ended Endpoint
  secured k s =
      let h = operate_ec lib k (handshake client) 0 s in
      if h.ec == 0 then (h.net, gave done) else (destroy h.net, thrown h.ec)

  after_connect-caught :
      (k : Kind) (r : Net × Ended Endpoint)
      → r.1 ≢ thrown 0
      → after_connect lib k r ≡ (
          if (caught done r).ec == 0
          then secured k (caught done r).net
          else (destroy (caught done r).net, thrown (caught done r).ec))
  unfolding after_connect operate operate_ec secured
  after_connect-caught tcp (s, gave a) ok = refl
  after_connect-caught ssl (s, gave a) ok = rw (overloads (stream_handshake client) s) (
      after_handshake-caught (throwing (stream_handshake client) s)
        (fails (stream_handshake client) s))
  after_connect-caught k (s, thrown zero) ok = absurd (ok refl)
  after_connect-caught k (s, thrown (suc e)) ok = rw (not_zero e) refl

  not_thrown : (r : Net × Ended Endpoint) → (a : Answer Endpoint) × ((caught done r).ended ≡ gave a)
  not_thrown (s, gave a) = (a, refl)
  not_thrown (s, thrown e) = (done, refl)

  -- `connection` connects, and on SSL shakes hands as a client; it throws the code of the first of
  -- the two that fails, and then goes no further and leaves the socket closed. `~connection` never
  -- throws, and leaves the socket closed.
  pub connection_lem :
      (k : Kind) (ep : Endpoint) (s : Net)
      → let c = operate_ec lib k (connect ep) 0 (construct k s) in
        let h = operate_ec lib k (handshake client) 0 c.net in
        (connection lib k ep s ≡ (
          if c.ec == 0
          then (if h.ec == 0 then (h.net, gave done) else (destroy h.net, thrown h.ec))
          else (destroy c.net, thrown c.ec)))
        × (is_open (destroy c.net) ≡ false)
        × (is_open (destroy h.net) ≡ false)
        × ((a : Answer Endpoint) × ((disconnect lib k s).1 ≡ gave a))
        × (is_open (disconnect lib k s).0 ≡ false)
  unfolding connection disconnect operate operate_ec secured
  connection_lem k ep s =
      let peer = layer_connect ep in
      let s1 = construct k s in
      let cancelled = coded layer_cancel s in
      (
        rw (overloads peer s1) (after_connect-caught k (throwing peer s1) (fails peer s1)),
        lib.closes (operate_ec lib k (connect ep) 0 s1).net,
        lib.closes
            (operate_ec lib k (handshake client) 0 (operate_ec lib k (connect ep) 0 s1).net).net,
        rw (overloads layer_close cancelled.net) (not_thrown (throwing layer_close cancelled.net)),
        lib.closes (operate_ec lib k close cancelled.ec cancelled.net).net,
      )
