-- ===== src/Lib.antt =====
-- The bhumi relay network: devices that sit behind a relay, and clients that send them messages
-- through it without naming themselves. A device gives the relay its commits, the hashes of
-- preimages that it has issued. A client sends with a preimage; the relay delivers the message if the
-- preimage's hash is one of the recipient's commits, uses the commit up, and carries the answer back.
--
-- The parts, and where they are modelled:
--
-- Base: results that may panic, lists over native numbers, association maps and sets as lists.
--
-- Proto, of bhumi-proto/src/lib.rs: a module for each message, with `to_bytes` and `from_bytes` as
-- in the code (Hello, IAm with Responses, Send, Deliver, Ack, SendResult, UpdateCommits with Commits,
-- HandshakeInit, HandshakeComplete, DeviceMessage, DeviceMessageResponse); Frame for `Frame` and
-- `async_io`, with Frame/Stream for what holds of a stream. Buffer has the reads of a slice, each of
-- which panics where the slice of the code does, and the casts `as u16` and `as u32`, which wrap.
--
-- Relay/Router, of bhumi-relay/src/router.rs: `Router` as a record. Each critical section of an
-- asynchronous method, from taking a lock to giving it back, is a function on the state: `check_cache`,
-- `claim`, `add_pending` and `drop_pending` are those of `route_message`, which composes them.
-- Relay/Router/Commits and Relay/Router/Ids interleave the critical sections of many tasks.
-- Relay/Router/Ledger is the abstract view of the devices, as functions without lists.
--
-- Relay/Session, of bhumi-relay/src/session.rs: `handle_frame` with its handlers, and the loop of `run`
-- over the sequence of inputs that `select!` gives it.
--
-- Node/State, of bhumi-node/src/state.rs: invites, pending peers, peers, and their preimages, with
-- Node/State/Stored for the file that keeps them and Node/State/Serde for the records in it.
-- Node/Connection, of bhumi-node/src/connection.rs, over the bytes of the stream. Node/Core,
-- Node/Command, Node/Server and Node/Client, of bhumi-node/src/node.rs and bhumi-node/src/lib.rs: the
-- node, the dispatch of commands, `run`, and `pair` and `send`. Node/Connection/Handshake,
-- Node/Connection/Exchange, Node/Invitation and Node/Exchange put two sides of the protocol together.
--
-- Network: a command through all of it, the session of bhumi-relay/src/session.rs with its router
-- between the client and the server side of bhumi-node/src/node.rs. Network/Ready says when a node can
-- send to another, Network/Holds what the relay needs for that, Network/Round is the device's side and
-- the relay's, and Network/Command adds the sender's `send` and its session.
--
-- Esp, of examples/esp32-smart-switch/src: Nvs is the flash storage; State, of state.rs, the device with
-- its invites and peers; Switch, of switch.rs, the commands and the light; Connection, of connection.rs;
-- Run and Wifi, of main.rs, the start, the rounds of `run_connection` and the wait for WiFi; Ble, of
-- ble.rs, what a BLE client writes and what it brings about, with Provision for the start after it. The
-- two handles of the storage are one value, that of the device. Mcu, of bhumi-mcu/src/ble.rs and
-- bhumi-proto/src/ble.rs: the BLE commands and which of them a device allows.
--
-- Id52, of fastn-id52/src/keys.rs and errors.rs: public keys, secret keys and signatures by their bytes,
-- with the texts that are written and read.
--
-- What is taken from outside, as parameters: the hash, the ed25519 checks and signatures, base64, hex
-- and base32, and JSON. The storage of the switch is a record of its
-- operations, with what is documented of it as laws on a view of its keys; so are ed25519 and the
-- encodings of Id52. Random bytes, the time, what a channel says of itself, and what other tasks do
-- during a wait are arguments of the functions that use them.
--
-- Numbers: a `u32` id wraps at 2 ^ 32; a `usize` is a number without a bound, as a 64-bit one is for
-- buffers that fit a memory. On the ESP32 it has 32 bits: the switch decodes a delivery by
-- `from_bytes_32` of Proto/Deliver, whose sums wrap (Proto/Narrow); its other sizes stay far below the
-- bound. A handler of an application's command may change the state that it shares with the
-- application; the model gives that state back. A String is its bytes. No loop needs fuel: each runs over a list that it is
-- given, of inputs or of moments, or over a count.
--
-- Not modelled: sockets, files, the system keyring and logging; JSON itself; the numbers in the texts
-- of errors; the relay's accept loop; the drivers of the switch's peripherals, its Bluetooth and its
-- WiFi; the traits of bhumi-mcu; the bhumi-hub, bhumi-kaya and bhumi-ble-controller crates; and the other
-- examples.
pub mod Base
pub mod Proto
pub mod Relay
pub mod Node
pub mod Network
pub mod Mcu
pub mod Esp
pub mod Id52
