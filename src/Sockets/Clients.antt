-- ===== src/Sockets/Clients.antt =====
-- An `http_client` and its connection: http_client.hpp, and the constructors of http_client_inst.cc.
use black_circle.Prelude.{
  ℕ, ◌≡◌, refl, sym, ap, ◌∙◌, subst, Bool, true, false, [], some, Bytes, codes, if◌then◌else◌,
}
use black_circle.Http.{HttpClient, get_schema_string}
use black_circle.Sockets.{
  Kind, tcp, ssl, client, Answer, done, Ended, gave, thrown, Coded, Asio, caught, layer_connect,
  layer_close, stream_handshake, close, operate, operate_ec, after_connect, after_handshake,
  connection,
}

-- The host of a constructor: a name that is looked up, or an endpoint.
pub data Host (Endpoint : Type 0) : Type 0 where
  named : Bytes → Host Endpoint
  at : Endpoint → Host Endpoint

-- What a constructor does: it makes a client, or throws an error code.
pub data Made : Type 0 where
  made : HttpClient → Made
  refused : ℕ → Made

-- What `resolve` gives for a name and a service, its first endpoint, unless it throws.
pub data Resolved (Endpoint : Type 0) : Type 0 where
  found : Endpoint → Resolved Endpoint
  unknown : ℕ → Resolved Endpoint

-- Boost.Asio: `resolver_type::resolve`, and `address().to_string()`.
pub record Resolver (Net Endpoint : Type 0) : Type 0 where
  pub resolve : Bytes → Bytes → Net → Net × Resolved Endpoint
  pub address : Endpoint → Bytes

-- The service that is looked up, and whether `get_context_ptr` is set.
abbrev pub service_of : Kind → Bytes
service_of tcp = codes "http"
service_of ssl = codes "https"

abbrev pub has_context : Kind → Bool
has_context tcp = false
has_context ssl = true

-- The members, behind the connection.
pub after_open : {Net Endpoint : Type 0} → Kind → Bytes → Net × Ended Endpoint → Net × Made
after_open k host (s, gave a) =
    (s, made (record { host = host; path = []; query = []; header = []; secure = has_context k }))
after_open k host (s, thrown e) = (s, refused e)

after_open-made :
    {Net Endpoint : Type 0} (k : Kind) (host : Bytes) (r : Net × Ended Endpoint) (t : Net)
    (c : HttpClient)
    → after_open k host r ≡ (t, made c)
    → ((a : Answer Endpoint) × (r ≡ (t, gave a)))
      × (c ≡ record { host = host; path = []; query = []; header = []; secure = has_context k })
unfolding after_open
after_open-made k host (s, gave a) t c e = ((a, cc), cc)
after_open-made k host (s, thrown x) t c e = cc

module _ {Net Endpoint : Type 0} (lib : Asio Net Endpoint) (dns : Resolver Net Endpoint) where
  pub after_resolve : Kind → Bytes → Net × Resolved Endpoint → Net × Made
  unfolding after_open connection
  after_resolve k host (s, found e) = after_open k host (connection lib k e s)
  after_resolve k host (s, unknown e) = (s, refused e)

  -- The four constructors of `http_client`, `tcp` for those without a context.
  unfoldable pub http_client : Kind → Host Endpoint → Net → Net × Made
  unfolding after_resolve after_open
  http_client k (named host) s = after_resolve k host (dns.resolve host (service_of k) s)
  http_client k (at e) s = after_open k (dns.address e) (connection lib k e s)

  -- `abort` and `connected`.
  unfoldable pub abort : Kind → Net → Net
  unfolding operate_ec
  abort k s = (operate_ec lib k close 0 s).net

  unfoldable pub connected : Net → Bool
  connected s = lib.is_open s

  -- The host that a client has.
  abbrev pub host_of : Host Endpoint → Bytes
  host_of (named host) = host
  host_of (at e) = dns.address e

  net-caught : (x : Answer Endpoint) (r : Net × Ended Endpoint) → (caught x r).net ≡ r.0
  net-caught x (s, gave a) = refl
  net-caught x (s, thrown e) = refl

  shut : (k : Kind) (s : Net) → lib.is_open (abort k s) ≡ false
  unfolding abort operate_ec
  shut k s =
      ap (λ (c : Coded Net Endpoint). lib.is_open c.net) (lib.overloads layer_close s)
      ∙ ap lib.is_open (net-caught done (lib.throwing layer_close s))
      ∙ lib.shuts s

  -- An open connection to an endpoint.
  pub record IsAt (e : Endpoint) (s : Net) : Type 0 where
    pub open_now : connected s ≡ true
    pub with_peer : lib.peer s ≡ some e

  -- The endpoint that a constructor connects to: the one it was given, or the first that the look-up
  -- of the host found, for the service named by the schema.
  abbrev pub IsTarget : Host Endpoint → Bytes → Net → Endpoint → Type 0
  IsTarget (named host) schema s e = (dns.resolve host schema s).1 ≡ found e
  IsTarget (at given) schema s e = e ≡ given

  -- A connection that was made.
  after_handshake_open :
      (ep : Endpoint) (r : Net × Ended Endpoint) (t : Net) (a : Answer Endpoint)
      → ((b : Answer Endpoint) → r.1 ≡ gave b → IsAt ep r.0)
      → after_handshake lib r ≡ (t, gave a)
      → IsAt ep t
  unfolding after_handshake
  after_handshake_open ep (s, gave b) t a h e =
      subst (IsAt ep) (ap (λ (r : Net × Ended Endpoint). r.0) e) (h b refl)
  after_handshake_open ep (s, thrown b) t a h e = cc

  after_connect_open :
      (k : Kind) (ep : Endpoint) (r : Net × Ended Endpoint) (t : Net) (a : Answer Endpoint)
      → ((b : Answer Endpoint) → r.1 ≡ gave b → IsAt ep r.0)
      → after_connect lib k r ≡ (t, gave a)
      → IsAt ep t
  unfolding after_connect operate connected
  after_connect_open tcp ep (s, gave b) t a h e =
      subst (IsAt ep) (ap (λ (r : Net × Ended Endpoint). r.0) e) (h b refl)
  after_connect_open ssl ep (s, gave b) t a h e =
      let before = h b refl in
      after_handshake_open ep (lib.throwing (stream_handshake client) s) t a
        (λ c f. record {
          open_now = lib.stays client s c before.open_now f;
          with_peer = lib.stays_with client s c f ∙ before.with_peer;
        })
        e
  after_connect_open k ep (s, thrown b) t a h e = cc

  connection_open :
      (k : Kind) (ep : Endpoint) (s t : Net) (a : Answer Endpoint)
      → connection lib k ep s ≡ (t, gave a)
      → IsAt ep t
  unfolding connection operate connected
  connection_open k ep s t a e =
      after_connect_open k ep (lib.throwing (layer_connect ep) (lib.construct k s)) t a
        (λ b f. record {
          open_now = lib.opens ep (lib.construct k s) b f;
          with_peer = lib.connects_to ep (lib.construct k s) b f;
        })
        e

  schema_lem : (k : Kind) → (if has_context k then codes "https" else codes "http") ≡ service_of k
  schema_lem tcp = refl
  schema_lem ssl = refl

  after_open_lem :
      (k : Kind) (name : Bytes) (ep : Endpoint) (s t : Net) (c : HttpClient)
      → after_open k name (connection lib k ep s) ≡ (t, made c)
      → IsAt ep t × (c.host ≡ name) × (get_schema_string c ≡ service_of k)
  after_open_lem k name ep s t c e =
      let ((a, opened), members) = after_open-made k name (connection lib k ep s) t c e in
      (
        connection_open k ep s t a opened,
        ap (λ (c : HttpClient). c.host) members,
        ap (λ (c : HttpClient). get_schema_string c) members ∙ schema_lem k,
      )

  after_resolve_lem :
      (k : Kind) (name : Bytes) (r : Net × Resolved Endpoint) (t : Net) (c : HttpClient)
      → after_resolve k name r ≡ (t, made c)
      → (ep : Endpoint) × (r.1 ≡ found ep)
        × IsAt ep t
        × (c.host ≡ name)
        × (get_schema_string c ≡ service_of k)
  unfolding after_resolve
  after_resolve_lem k name (s, found e) t c h =
      let (here, same, schema) = after_open_lem k name e s t c h in (e, refl, here, same, schema)
  after_resolve_lem k name (s, unknown e) t c h = cc

  -- A constructor of `http_client` that does not throw leaves an open connection to the endpoint that
  -- it was given, or to the first that the look-up of the host that it was given found, for the
  -- service that is the schema of the client's URIs; that is "https" with an SSL context and "http"
  -- without; the client's host is that host, or the address of that endpoint; and after `abort` the
  -- client is not connected.
  pub http_client_lem :
      (k : Kind) (host : Host Endpoint) (s t : Net) (c : HttpClient)
      → http_client k host s ≡ (t, made c)
      → ((e : Endpoint) × IsTarget host (get_schema_string c) s e × IsAt e t)
        × (c.host ≡ host_of host)
        × (get_schema_string c ≡ service_of k)
        × (connected (abort k t) ≡ false)
  unfolding http_client connected
  http_client_lem k (named host) s t c e =
      let (ep, looked_up, here, same, schema) =
        after_resolve_lem k host (dns.resolve host (service_of k) s) t c e in
      (
        (ep, subst (λ x. (dns.resolve host x s).1 ≡ found ep) (sym schema) looked_up, here),
        same,
        schema,
        shut k t,
      )
  http_client_lem k (at ep) s t c e =
      let (here, same, schema) = after_open_lem k (dns.address ep) ep s t c e in
      ((ep, refl, here), same, schema, shut k t)
