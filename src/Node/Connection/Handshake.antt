-- ===== src/Node/Connection/Handshake.antt =====
-- The node's handshake of bhumi-node/src/connection.rs against the relay's session of
-- bhumi-relay/src/session.rs.
use bhumi.Base.{
  ℕ, ◌*◌, ◌^◌, ◌≤◌, ◌<◌, ◌≡◌, refl, List, [], true, some, ok, arith, length, bytes_has_eq,
}
use bhumi.Base.Map
use bhumi.Base.Map.{lookup-insert_self}
use bhumi.Base.Set
use bhumi.Proto.Buffer.{Bytes}
use bhumi.Proto.Hello
use bhumi.Proto.Hello.{Hello}
use bhumi.Proto.IAm
use bhumi.Proto.IAm.{IAm}
use bhumi.Proto.Frame
use bhumi.Proto.Frame.{Frame, write_frame, read_frame, write_to, read_from}
use bhumi.Proto.Frame.Stream
use bhumi.Proto.Frame.Stream.{read_from-write_to, read_frame-read_from}
use bhumi.Relay.Router
use bhumi.Relay.Router.{Router, DeviceState, route_message}
use bhumi.Relay.Session
use bhumi.Relay.Session.{
  Context, World, handle_frame, frame_i_am, frame_send, handle_i_am, handle_send, greet,
}
use bhumi.Relay.Session.Auth.{challenge}
use bhumi.Node.Connection.{SecretKey, Connection, next_frame, put_frame, identify, handshake}
use bhumi.Node.Connection.Wire.{read_frame-alone, IAm-alone, Hello-alone, length-hello}

-- The frame that the node answers a greeting with.
abbrev pub introduction : SecretKey → List Bytes → ℕ → IAm
introduction key commits nonce =
    IAm.new key.public_key (key.sign (challenge nonce key.public_key)) commits

-- A key whose signatures the relay's checks accept, and whose I_AM is one that a frame can carry.
pub record IsAccepted (c : Context) (key : SecretKey) (commits : List Bytes) (nonce : ℕ)
    : Type 0 where
  pub key_good : c.verifier.is_key key.public_key ≡ true
  pub signature_good :
      c.verifier.verify key.public_key
        (challenge nonce key.public_key)
        (key.sign (challenge nonce key.public_key))
      ≡ true
  pub message : IAm.IsValid (introduction key commits nonce)
  pub size : length (IAm.to_bytes (introduction key commits nonce)) ≤ 1024 * 1024

-- The node's side: the greeting of the relay makes it write its introduction.
handshake-greet :
    (key : SecretKey) (commits : List Bytes) (nonce : ℕ) (router : Router)
    → nonce < 2 ^ 32
    → handshake key commits
        (record { incoming = (greet (Session.new nonce router)).written; written = [] })
      ≡ ok (record {
        incoming = [];
        written = write_frame [] (Frame.i_am (introduction key commits nonce));
      })
unfolding handshake next_frame identify put_frame greet Session.new Frame.hello Frame.new Hello.new
handshake-greet key commits nonce router small =
    let m = Hello.new nonce (64 * 1024) in
    let f = Frame.hello m in
    let len : length (Hello.to_bytes m) ≡ 9 = length-hello m in
    let fv : Stream.IsValid f = record {
      type_size = omega arith;
      payload_size = omega (arith, len);
    } in
    let mv : Hello.IsValid m = record {
      version_size = omega arith;
      nonce_size = small;
      max_payload_size_size = omega arith;
    } in
    rw (handshake, next_frame, read_frame-alone f fv, identify, Hello-alone m mv) refl

-- The relay's side.
handle_frame-introduction :
    (c : Context) (key : SecretKey) (commits : List Bytes) (w : World)
    → IsAccepted c key commits w.nonce
    → handle_frame c (Frame.i_am (introduction key commits w.nonce)) w
      ≡ ok (
        record w {
          id52 = some key.public_key;
          router =
              Router.register c.env.now key.public_key commits [] c.sender
                (Session.unregister_old w.id52 w.router);
        },
        true,
      )
unfolding handle_frame frame_i_am handle_i_am Frame.i_am Frame.new IAm.new
handle_frame-introduction c key commits w v =
    rw (IAm-alone (introduction key commits w.nonce) v.message, v.key_good, v.signature_good) refl

-- A node connects to the relay, whose nonce is a u32, with a key whose signatures the relay accepts.
-- The key has 32 bytes, the signature 64 and each commit 32, there are fewer than 2^16 commits, and
-- the I_AM has at most 1 MiB, which is what a frame can carry. Then the node's handshake succeeds on the relay's greeting; the bytes that it writes are one frame; and on that frame the
-- relay takes on the node's identity and lists it with exactly the commits that it gave.
pub handshake-handle_frame :
    (c : Context) (key : SecretKey) (commits : List Bytes) (nonce : ℕ) (router : Router)
    → nonce < 2 ^ 32
    → IsAccepted c key commits nonce
    → let w = greet (Session.new nonce router) in
      (conn : Connection) × (frame : Frame) × (w' : World) × (handshake key commits
          (record { incoming = w.written; written = [] })
        ≡ ok conn)
      × (read_frame conn.written ≡ ok (frame, []))
      × (handle_frame c frame w ≡ ok (w', true))
      × (w'.id52 ≡ some key.public_key)
      × (Map.lookup key.public_key w'.router.devices
          ≡ some (record { commits = Set.collect commits; sender = c.sender }))
unfolding greet Session.new Frame.i_am Frame.new Router.register Session.unregister_old
handshake-handle_frame c key commits nonce router small v =
    let f = Frame.i_am (introduction key commits nonce) in
    let w = greet (Session.new nonce router) in
    (
      _,
      f,
      _,
      handshake-greet key commits nonce router small,
      read_frame-alone f (record { type_size = omega arith; payload_size = v.size }),
      handle_frame-introduction c key commits w v,
      refl,
      lookup-insert_self key.public_key _ router.devices,
    )
