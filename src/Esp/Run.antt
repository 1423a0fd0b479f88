-- ===== src/Esp/Run.antt =====
-- The switch's loops, examples/esp32-smart-switch/src/main.rs. The two handles of the namespace
-- "bhumi" share one storage, that of the device. An event is what happens in one round of a loop: the
-- writes of the BLE client, what the random generator returns, and the read's timeout, which may come
-- when some bytes were already taken from the stream.
pub mod Kept
pub mod Total
pub mod Sound
use bhumi.Base.{
  ℕ, zero, suc, ◌*◌, ◌+◌, List, [], ◌∷◌, ◌++◌, Bool, true, false, Option, none, some, if◌then◌else◌,
  ◌==◌, bytes_has_eq, nat_has_eq, nat_eq, drop, length, Result, ok, err, panic, IoError, ◌>>=◌, ltb,
}
use bhumi.Proto.Buffer.{Bytes}
use bhumi.Proto.HandshakeInit.{dev_handshake_init}
use bhumi.Node.Connection.{Connection, IncomingMessage}
use bhumi.Esp.Nvs.{Nvs}
use bhumi.Esp.State.{
  Board, DeviceState, load, load_led_state, get_invite_token, create_owner_invite, get_commits,
  handle_handshake, reject_handshake, expect,
}
use bhumi.Esp.Switch.{Switch, set_on, handle_command}
use bhumi.Esp.Ble.{BleState, Characteristic, on_writes, check_ble_command}
use bhumi.Esp.Connection
use bhumi.Esp.Connection.{receive, send_ack, update_commits}

-- The start: the device's state, and the light as it was kept.
unfoldable pub start :
    {V S : Type 0} → Board V S → Bytes → S → Switch → Result (DeviceState S × Switch)
unfolding set_on
start b fresh nvs s = do d ← load b fresh nvs; ok (d, set_on (load_led_state b d) s)

unfoldable pub with_token :
    {S : Type 0} → Result (DeviceState S × Bytes) → Result (DeviceState S × Option Bytes)
with_token made = do (d, token) ← made; ok (d, some token)

-- The token of the first invite, or of a new one.
unfoldable pub first_token :
    {V S : Type 0} → Board V S → Bytes → DeviceState S → Result (DeviceState S × Bytes)
first_token b fresh d =
    if ltb 0 (length d.state.invites)
    then (expect (get_invite_token b d) >>= λ token. ok (d, token))
    else create_owner_invite b fresh d

-- The invite token that is shown while the device has no peer.
unfoldable pub pairing_token :
    {V S : Type 0} → Board V S → Bytes → DeviceState S → Result (DeviceState S × Option Bytes)
unfolding first_token with_token
pairing_token b fresh d =
    if nat_eq (length d.state.peers) 0 then with_token (first_token b fresh d) else ok (d, none)

pub record World (S : Type 0) : Type 0 where
  pub device : DeviceState S
  pub switch : Switch
  pub ble : BleState
  pub conn : Connection

unfoldable pub is_handshake : IncomingMessage → Bool
is_handshake msg = elim msg.msg_type [ none ↦ false | some t ↦ nat_eq t dev_handshake_init ]

-- The answer to a handshake.
unfoldable pub answer_handshake : ℕ → Option (Bytes × Option Bytes) → Connection → Connection
answer_handshake msg_id none conn = send_ack msg_id reject_handshake conn
answer_handshake msg_id (some (response, none)) conn = send_ack msg_id response conn
answer_handshake msg_id (some (response, some commit)) conn =
    update_commits (commit ∷ []) (send_ack msg_id response conn)

-- The answer to a command.
unfoldable pub answer_command : ℕ → Bytes → Option (Bytes × Bytes) → Connection → Connection
answer_command msg_id response none conn = send_ack msg_id response conn
answer_command msg_id response (some (new_preimage, commit)) conn =
    send_ack msg_id (response ++ new_preimage) (update_commits (commit ∷ []) conn)

unfoldable pub handle_message :
    {V S : Type 0} → Board V S → Bytes → IncomingMessage → World S → Result (World S)
unfolding is_handshake answer_handshake answer_command
handle_message b fresh msg w = elim (is_handshake msg) [
  | true ↦ do
    (d, answer) ← handle_handshake b fresh msg w.device
    ok (record w { device = d; conn = answer_handshake msg.msg_id answer w.conn })
  | false ↦ do
    (d, s, response, renewed) ← handle_command b fresh msg w.device w.switch
    ok (record w {
      device = d;
      switch = s;
      conn = answer_command msg.msg_id response renewed w.conn;
    })
]

pub record Event : Type 0 where
  pub writes : List (Characteristic × Bytes)
  pub timeout : Option ℕ
  pub fresh : Bytes

pub data Flow : Type 0 where
  continues : Flow
  restarts : Flow
  fails : IoError → Flow

-- `check_ble_command` at the storage of the device.
unfoldable pub check_ble :
    {V S : Type 0} → Board V S → List (Characteristic × Bytes) → World S → World S × Bool
check_ble b writes w =
    let (ble, nvs, restart) = check_ble_command b.nvs (on_writes writes w.ble) w.device.nvs in
    (record w { ble = ble; device = record w.device { nvs = nvs } }, restart)

-- The read of one round and what it leads to.
unfoldable pub receive_message :
    {V S : Type 0} → Board V S → Event → World S → Result (World S × Flow)
unfolding handle_message
receive_message b ev w = elim ev.timeout [
  | some n ↦ ok (record w { conn = record w.conn { incoming = drop n w.conn.incoming } }, continues)
  | none ↦ elim (receive w.conn) [
    | panic ↦ panic
    | err e ↦ ok (w, fails e)
    | ok (msg, conn) ↦ do
      w ← handle_message b ev.fresh msg (record w { conn = conn })
      ok (w, continues)
  ]
]

-- One round of the loop of `run_connection`.
unfoldable pub round : {V S : Type 0} → Board V S → Event → World S → Result (World S × Flow)
unfolding check_ble receive_message
round b ev w =
    let (w, restart) = check_ble b ev.writes w in
    elim restart [ true ↦ ok (w, restarts) | false ↦ receive_message b ev w ]

-- The rounds until the loop is left or no more happens.
unfoldable pub rounds : {V S : Type 0} → Board V S → List Event → World S → Result (World S × Flow)
unfolding round
rounds b [] w = ok (w, continues)
rounds b (ev ∷ evs) w = elim (round b ev w) [
  | panic ↦ panic
  | err e ↦ err e
  | ok (w, continues) ↦ rounds b evs w
  | ok (w, restarts) ↦ ok (w, restarts)
  | ok (w, fails e) ↦ ok (w, fails e)
]

unfoldable pub run_connection :
    {V S : Type 0} → Board V S → List Event → World S → Result (World S × Flow)
unfolding rounds
run_connection b evs w = do
  conn ← Connection.connect (b.key w.device.secret_key) (get_commits b w.device) w.conn
  rounds b evs (record w { conn = conn })
