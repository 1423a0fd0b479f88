-- ===== src/Esp/Tests.antt =====
-- The properties of the switch of examples/esp32-smart-switch/src at a storage that is a list.
use bhumi.Base.{
  ℕ, ◌≡◌, ◌≢◌, ◌↔◌, ◌⊎◌, inl, inr, refl, ap, subst, List, [], ◌∷◌, true, false, Option, none, some,
  bytes_has_eq, bytes_eq, ok, panic, arith, length, if◌then◌else◌, ◌==◌, ascii, leb, ltb,
}
use bhumi.Base.Map
use bhumi.Base.Map.{lookup-insert, lookup-remove}
use bhumi.Base.Set
use bhumi.Proto.Buffer.{Bytes, be16, be32, read_u16, index, read_u32, array, slice}
use bhumi.Proto.Tests.{fill, is_bytes-AreBytes}
use bhumi.Proto.HandshakeInit
use bhumi.Proto.HandshakeInit.{HandshakeInit}
use bhumi.Proto.HandshakeComplete
use bhumi.Proto.HandshakeComplete.{HandshakeComplete, handshake_accepted}
use bhumi.Proto.Utf8.{is_utf8}
use bhumi.Proto.Deliver
use bhumi.Proto.Deliver.{Deliver}
use bhumi.Proto.Frame
use bhumi.Proto.Frame.{Frame, write_frame, read_from}
use bhumi.Node.Connection as Node
use bhumi.Node.Connection.{SecretKey, Connection as Wire, IncomingMessage, parse_device_msg_type}
use bhumi.Node.Core.{Json, Request, good, bad, ok_response}
use bhumi.Esp.State.{
  owner, writer, reader, InviteRecord, PeerRecord, StoredState, empty, Board, DeviceState,
  lookup_preimage, find_peer, renew_preimage, replace_preimage, save, expect, save_led_state,
  take_invite, get_commits, peer_commits, paired, handle_handshake,
}
use bhumi.Esp.State.Kept.{Kept, start-forgets}
use bhumi.Esp.State.Commits.{get_commits_lem}
use bhumi.Esp.Switch.{
  Switch, dispatch_command, turn, set_on, set_led, is_switching, keep_light, perform,
  handle_command,
}
use bhumi.Esp.Switch.Handled.{handle_command-change}
use bhumi.Esp.Switch.Renews.{handle_command-renews, handle_handshake-accepts}
use bhumi.Mcu.{reset, provision}
use bhumi.Esp.Ble
use bhumi.Esp.Ble.{
  BleState, Characteristic, on_writes, check_ble_command, run_command, load_wifi_credentials,
  wifi_ssid, wifi_pass, nothing,
}
use bhumi.Esp.Connection
use bhumi.Esp.Connection.Same.{connection-same}
use bhumi.Esp.Provision.{SameElsewhere, provision-load_wifi_credentials, reset-start}
use bhumi.Esp.Wifi.{Attempt}
use bhumi.Esp.Run.{
  World, Event, Flow, continues, handle_message, is_handshake, check_ble, receive_message,
  answer_command, round, rounds, start,
}
use bhumi.Esp.Run.Total.{Reached, AtOversized, rounds-Ends}
use bhumi.Esp.Run.Sound.{IsSound, rounds-start}
use bhumi.Esp.Nvs.{
  key_secret, key_state, key_led_on, Nvs, IsNvs, Read, found, absent, failed, Value, blob, str, u8,
}

abbrev Store : Type 0
Store = List (Bytes × Value)

abbrev read_blob : ℕ → Option Value → Read Bytes
read_blob size none = absent
read_blob size (some (blob v)) = if leb (length v) size then found v else failed
read_blob size (some (str v)) = absent
read_blob size (some (u8 v)) = absent

abbrev read_str : ℕ → Option Value → Read Bytes
read_str size none = absent
read_str size (some (blob v)) = absent
read_str size (some (str v)) = if ltb (length v) size then found v else failed
read_str size (some (u8 v)) = absent

abbrev read_u8 : Option Value → Read ℕ
read_u8 none = absent
read_u8 (some (blob v)) = absent
read_u8 (some (str v)) = absent
read_u8 (some (u8 v)) = found v

abbrev store : Nvs Store
store = record {
  get_blob = λ k size s. read_blob size (Map.lookup k s);
  set_blob = λ k v s. some (Map.insert k (blob v) s);
  get_str = λ k size s. read_str size (Map.lookup k s);
  set_str = λ k v s. some (Map.insert k (str v) s);
  get_u8 = λ k s. read_u8 (Map.lookup k s);
  set_u8 = λ k v s. some (Map.insert k (u8 v) s);
  remove = λ k s. Map.remove k s;
}

some_eq : {A : Type 0} (x y : A) → some x ≡ some y → x ≡ y
some_eq x y h = cc

inserted :
    (k : Bytes) (v : Value) (s s' : Store)
    → some (Map.insert k v s) ≡ some s'
    → (j : Bytes) → Map.lookup j s' ≡ (if k == j then some v else Map.lookup j s)
inserted k v s s' h j =
    subst (λ x. Map.lookup j x ≡ (if k == j then some v else Map.lookup j s))
      (some_eq (Map.insert k v s) s' h) (lookup-insert k j v s)

unfoldable store-IsNvs : IsNvs store
store-IsNvs = record {
  view = λ k s. Map.lookup k s;
  get_blob_none = λ k size s e. ap (read_blob size) e;
  get_blob_some = λ k v size s e. ap (read_blob size) e;
  get_str_none = λ k size s e. ap (read_str size) e;
  get_str_some = λ k v size s e. ap (read_str size) e;
  get_u8_none = λ k s e. ap read_u8 e;
  get_u8_some = λ k v s e. ap read_u8 e;
  set_blob_view = λ k v s s' e j. inserted k (blob v) s s' e j;
  set_str_view = λ k v s s' e j. inserted k (str v) s s' e j;
  set_u8_view = λ k v s s' e j. inserted k (u8 v) s s' e j;
  remove_view = λ k s j. lookup-remove k j s;
}

-- A JSON for the tests: a request is its command.
abbrev no_json : Json Bytes
no_json = record {
  null = [];
  text = λ b. b;
  truth = λ b. [];
  array = λ vs. [];
  object = λ m. [];
  get = λ name v. none;
  as_str = λ v. some v;
  read_request = λ b. good (record { cmd = b; args = [] });
  write_request = λ r. r.cmd;
  read_response = λ b. bad [];
  write_response = λ r. 0 ∷ [];
}

abbrev secret : SecretKey
secret = record { public_key = fill 1 32; sign = λ m. fill 8 64 }

abbrev id_peer : Bytes
id_peer = fill 2 32

abbrev peer : Bytes → PeerRecord
peer preimage = record {
  alias = ascii "owner";
  role = writer;
  their_preimage = preimage;
  our_preimage = fill 9 32;
  relay_url = none;
}

-- A state with one peer, and one that has an invite too.
abbrev state : Bytes → StoredState
state preimage = record { invites = []; peers = (id_peer, peer preimage) ∷ [] }

-- What is written of a state is the preimage of its first peer.
abbrev write_one : StoredState → Bytes
write_one s = elim s.peers [ [] ↦ [] | (id, p) ∷ ps ↦ p.their_preimage ]

abbrev board : Board Bytes Store
board = record {
  nvs = store;
  key = λ k. secret;
  id52_text = λ k. k;
  sha256 = λ b. 0 ∷ b;
  base64_encode = λ b. b;
  write_state = write_one;
  read_state = λ b. some (state b);
  json = no_json;
}

abbrev flash : Bytes → Store
flash preimage = (key_secret, blob (fill 1 32)) ∷ (key_state, blob preimage) ∷ []

abbrev device : DeviceState Store
device = record { secret_key = fill 1 32; state = state (fill 3 32); nvs = flash (fill 3 32) }

device-Kept : Kept board store-IsNvs device.secret_key device.state false device.nvs
unfolding store-IsNvs Map.lookup bytes_eq
device-Kept = record {
  secret = refl;
  secret_size = refl;
  stored = inl refl;
  lit = inr (refl, refl);
}

abbrev off : Switch
off = record { is_on = false; led = false }

abbrev turn_on : Deliver
turn_on = record { msg_id = 1; preimage = fill 3 32; payload = ascii "on" }

abbrev world : World Store
world = record {
  device = device;
  switch = off;
  ble = Ble.new;
  conn = record { incoming = write_frame [] (Frame.deliver turn_on); written = [] };
}

world-IsSound : IsSound board store-IsNvs world
world-IsSound = record { kept = device-Kept; shown = refl }

abbrev commanded : List Event
commanded = record { writes = []; timeout = none; fresh = fill 6 32 } ∷ []

abbrev blobs : (k v : Bytes) (s : Store) → (s' : Store) × (store.set_blob k v s ≡ some s')
blobs k v s = (Map.insert k (blob v) s, refl)

abbrev strings : (k v : Bytes) (s : Store) → (s' : Store) × (store.set_str k v s ≡ some s')
strings k v s = (Map.insert k (str v) s, refl)

abbrev lights : (k : Bytes) (v : ℕ) (s : Store) → (s' : Store) × (store.set_u8 k v s ≡ some s')
lights k v s = (Map.insert k (u8 v) s, refl)

abbrev lit : DeviceState Store
lit = record device {
  state = state (fill 6 32);
  nvs = Map.insert key_state (blob (fill 6 32)) (Map.insert key_led_on (u8 1) (flash (fill 3 32)));
}

abbrev answered : Wire
answered =
    Connection.send_ack 1 (0 ∷ fill 6 32)
      (Connection.update_commits ((0 ∷ fill 6 32) ∷ []) (record { incoming = []; written = [] }))

abbrev shining : World Store
shining = record {
  device = lit;
  switch = record { is_on = true; led = true };
  ble = Ble.new;
  conn = answered;
}

rounds_once : rounds board commanded world ≡ ok (shining, continues)
unfolding rounds round check_ble receive_message handle_message is_handshake answer_command
    Connection.receive Connection.send_ack Connection.update_commits handle_command perform
    dispatch_command keep_light lookup_preimage find_peer renew_preimage replace_preimage save
    expect save_led_state on_writes check_ble_command run_command bytes_eq turn set_on set_led
    read_from write_frame Map.insert is_switching be16 be32 Frame.deliver Deliver.to_bytes read_u16
    index read_u32 Deliver.from_bytes_32 array slice parse_device_msg_type ok_response
rounds_once = refl

rounds-start_example :
    (start board (fill 5 32) lit.nvs off ≡ ok (lit, record { is_on = true; led = true }))
    × IsSound board store-IsNvs shining
rounds-start_example =
    rounds-start board store-IsNvs commanded world shining continues (fill 5 32) off lights
      world-IsSound rounds_once (λ q. cc) refl (omega arith)

abbrev on_message : IncomingMessage
on_message = record { msg_id = 1; preimage = fill 3 32; msg_type = none; payload = ascii "on" }

abbrev on_request : Request Bytes
on_request = record { cmd = ascii "on"; args = [] }

known : lookup_preimage board (fill 3 32) device ≡ some (id_peer, peer (fill 3 32))
unfolding lookup_preimage find_peer bytes_eq
known = refl

unused : Set.contains (0 ∷ fill 6 32) (peer_commits board.sha256 device.state.peers) ≡ false
unfolding Set.contains peer_commits bytes_eq
unused = refl

handle_command-renews_example :
    let (s', r) = dispatch_command board device writer on_request off in
    (d' : DeviceState Store) × (handle_command board (fill 6 32) on_message device off
      ≡ ok (d', s', no_json.write_response r, some (fill 6 32, 0 ∷ fill 6 32)))
    × (lookup_preimage board (fill 6 32) d' ≡ some (id_peer, peer (fill 6 32)))
    × (Set.contains (0 ∷ fill 6 32) (get_commits board d') ≡ true)
    × (d'.state.invites ≡ [])
handle_command-renews_example =
    handle_command-renews board blobs (fill 6 32) on_message device off id_peer (peer (fill 3 32))
      on_request known refl unused

-- A device that waits for its owner.
abbrev invited : DeviceState Store
invited = record device {
  state = record {
    invites = (fill 4 32, record { alias = ascii "owner"; role = owner }) ∷ [];
    peers = [];
  };
}

abbrev init : HandshakeInit
init = record { sender_id52 = id_peer; preimage_for_peer = fill 9 32; relay_url = [] }

init-IsValid : HandshakeInit.IsValid init
unfolding is_utf8
init-IsValid = record {
  id52_size = refl;
  preimage_size = refl;
  url_utf8 = refl;
  url_size = omega arith;
}

abbrev init_message : IncomingMessage
init_message = record {
  msg_id = 1;
  preimage = fill 4 32;
  msg_type = some 1;
  payload = HandshakeInit.to_bytes init;
}

abbrev complete : HandshakeComplete
complete = record { status = handshake_accepted; preimage_for_peer = fill 6 32; relay_url = [] }

handle_handshake-accepts_example :
    (d' : DeviceState Store) × (answer : Bytes) × (handle_handshake board
        (fill 6 32)
        init_message
        invited
      ≡ ok (d', some (answer, some (0 ∷ fill 6 32))))
    × (HandshakeComplete.from_bytes answer ≡ ok complete)
    × (d'.state.invites ≡ [])
    × (lookup_preimage board (fill 6 32) d'
        ≡ some (id_peer, paired (fill 6 32) init (record { alias = ascii "owner"; role = owner })))
    × (Set.contains (0 ∷ fill 6 32) (get_commits board d') ≡ true)
unfolding take_invite bytes_eq Set.contains peer_commits
handle_handshake-accepts_example =
    handle_handshake-accepts board blobs (fill 6 32) init init_message invited
      (record { alias = ascii "owner"; role = owner }) [] init-IsValid refl refl refl refl

handled :
    handle_command board (fill 6 32) on_message device off
    ≡ ok (lit, shining.switch, 0 ∷ [], some (fill 6 32, 0 ∷ fill 6 32))
unfolding handle_command perform dispatch_command keep_light lookup_preimage find_peer
    renew_preimage replace_preimage save expect save_led_state bytes_eq turn set_on set_led
    Map.insert is_switching ok_response
handled = refl

off_on : ¬ (true ≡ false)
off_on e = cc

handle_command-change_example :
    (id : Bytes) × (p : PeerRecord) × (req : Request Bytes) × (lookup_preimage board
        (fill 3 32)
        device
      ≡ some (id, p))
    × (no_json.read_request (ascii "on") ≡ good req)
    × (is_switching req.cmd ≡ true)
    × (p.role ≢ reader)
    × (shining.switch ≡ (dispatch_command board device p.role req off).0)
handle_command-change_example =
    handle_command-change board (fill 6 32) on_message device lit off shining.switch (0 ∷ [])
      (some (fill 6 32, 0 ∷ fill 6 32)) handled (λ e. off_on (ap (λ (s : Switch). s.is_on) e))

get_commits_lem_example :
    (Set.contains (board.sha256 (fill 3 32)) (get_commits board device) ≡ true) ↔ (
      ((i : InviteRecord) × (rest : List (Bytes × InviteRecord)) × (take_invite board.sha256
            (fill 3 32)
            []
          ≡ some (i, rest)))
      ⊎ ((id : Bytes) × (p : PeerRecord) × (lookup_preimage board (fill 3 32) device
            ≡ some (id, p))))
get_commits_lem_example = get_commits_lem board (fill 3 32) device

rounds-Ends_example :
    ((w' : World Store) × (flow : Flow) × (rounds board commanded world ≡ ok (w', flow)))
    ⊎ ((rounds board commanded world ≡ panic)
        × ((w' : World Store) × Reached board blobs world w' × AtOversized w'.conn.incoming))
rounds-Ends_example = rounds-Ends board blobs commanded world

-- A board on which a state is written with many bytes.
abbrev wordy : Board Bytes Store
wordy = record board { write_state = λ s. fill 7 5000 }

abbrev full : Store
full = (key_secret, blob (fill 1 32)) ∷ (key_state, blob (fill 7 5000)) ∷ []

full-Kept : Kept wordy store-IsNvs (fill 1 32) (state (fill 3 32)) false full
unfolding store-IsNvs Map.lookup bytes_eq
full-Kept = record { secret = refl; secret_size = refl; stored = inl refl; lit = inr (refl, refl) }

start-forgets_example :
    start wordy (fill 5 32) full off
    ≡ ok (record { secret_key = fill 1 32; state = empty; nvs = full }, off)
unfolding store-IsNvs Map.lookup bytes_eq
start-forgets_example =
    start-forgets wordy store-IsNvs (fill 1 32) (fill 5 32) (state (fill 3 32)) false full off
      full-Kept refl (omega arith)

provision-load_wifi_credentials_example :
    let ble =
      on_writes
        ((wifi_ssid, ascii "home")
          ∷ (wifi_pass, ascii "secret")
          ∷ (Characteristic.command, provision ∷ [])
          ∷ [])
        Ble.new in
    let (ble2, s', restart) = check_ble_command store ble device.nvs in
    (restart ≡ true)
    × (load_wifi_credentials store s' ≡ some (ascii "home", ascii "secret"))
    × SameElsewhere store store-IsNvs device.nvs s'
    × (ble2.command ≡ nothing)
unfolding is_utf8
provision-load_wifi_credentials_example =
    provision-load_wifi_credentials store store-IsNvs (ascii "home") (ascii "secret") [] Ble.new
      device.nvs strings refl refl (omega arith) (omega arith) (omega arith) (omega arith)

reset-start_example :
    let (ble', nvs', restart) =
      check_ble_command store
        (on_writes ((Characteristic.command, reset ∷ []) ∷ []) Ble.new)
        device.nvs in
    (restart ≡ true)
    × (load_wifi_credentials store nvs' ≡ none)
    × ((nvs2 : Store) × (start board (fill 5 32) nvs' off
          ≡ ok (record { secret_key = fill 5 32; state = empty; nvs = nvs2 }, off))
        × Kept board store-IsNvs (fill 5 32) empty false nvs2)
reset-start_example = reset-start board store-IsNvs [] (fill 5 32) Ble.new device.nvs off blobs refl

abbrev turned : IncomingMessage
turned = record { msg_id = 1; preimage = fill 3 32; msg_type = some 111; payload = ascii "on" }

abbrev silent : Wire
silent = record { incoming = []; written = [] }

connection-same_example :
    ((Connection.connect secret [] world.conn ≡ ok silent)
      ↔ (Node.connect secret [] world.conn ≡ ok silent))
    × ((Connection.receive world.conn ≡ ok (turned, silent))
        ↔ (Node.receive world.conn ≡ ok (turned, silent)))
    × (Connection.send_ack 1 [] world.conn ≡ Node.send_ack 1 [] world.conn)
    × (Connection.update_commits [] world.conn ≡ Node.update_commits [] world.conn)
unfolding write_frame be16 be32 Frame.deliver Deliver.to_bytes
connection-same_example =
    connection-same secret [] 1 [] turned world.conn silent
      (is_bytes-AreBytes world.conn.incoming refl)

abbrev failing : Attempt
failing = record { before = []; connects = false; gets_ip = false; during = λ n. [] }
