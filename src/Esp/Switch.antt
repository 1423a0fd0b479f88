-- ===== src/Esp/Switch.antt =====
-- The switch's commands, examples/esp32-smart-switch/src/switch.rs, and its two globals in main.rs:
-- `IS_ON`, and the LED's pin, which is there and takes what is set.
pub mod Handled
pub mod Renews
use bhumi.Base.{
  List, [], ◌∷◌, ◌++◌, Bool, true, false, not, ◌&&◌, ◌||◌, Option, none, some, if◌then◌else◌, ◌==◌,
  bytes_has_eq, ascii, Result, ok, err, panic, ◌>>=◌,
}
use bhumi.Proto.Buffer.{Bytes}
use bhumi.Node.Connection.{IncomingMessage}
use bhumi.Node.Core.{Json, Request, Response, Outcome, good, bad, ok_response, err_response}
use bhumi.Esp.State.{
  PeerRole, owner, writer, reader, PeerRecord, Board, DeviceState, id52, lookup_preimage,
  renew_preimage, save_led_state,
}

pub record Switch : Type 0 where
  pub is_on : Bool
  pub led : Bool

unfoldable pub set_led : Bool → Switch → Switch
set_led on s = record s { led = on }

unfoldable pub set_on : Bool → Switch → Switch
unfolding set_led
set_on on s = set_led on (record s { is_on = on })

unfoldable pub is_on_json : {V : Type 0} → Json V → Bool → V
is_on_json json on = json.object ((ascii "is_on", json.truth on) ∷ [])

abbrev pub denied : {V : Type 0} → Response V
denied = err_response (ascii "permission denied: writer or owner only")

-- A change of the light, for a writer or an owner.
unfoldable pub turn : {V S : Type 0} → Board V S → PeerRole → Bool → Switch → Switch × Response V
unfolding set_on is_on_json
turn b owner on s = (set_on on s, ok_response (is_on_json b.json on))
turn b writer on s = (set_on on s, ok_response (is_on_json b.json on))
turn b reader on s = (s, denied)

unfoldable pub node_info : {V S : Type 0} → Board V S → DeviceState S → Response V
node_info b d = ok_response (
    b.json.object (
      (ascii "kind", b.json.text (ascii "smart-switch"))
      ∷ (ascii "location", b.json.text [])
      ∷ (ascii "id", b.json.text (id52 b d))
      ∷ []))

unfoldable pub dispatch_command :
    {V S : Type 0} → Board V S → DeviceState S → PeerRole → Request V → Switch → Switch × Response V
unfolding node_info turn is_on_json
dispatch_command b d role req s =
    if req.cmd == ascii "node/info"
    then (s, node_info b d)
    else if req.cmd == ascii "status"
    then (s, ok_response (is_on_json b.json s.is_on))
    else if req.cmd == ascii "on"
    then turn b role true s
    else if req.cmd == ascii "off"
    then turn b role false s
    else if req.cmd == ascii "toggle"
    then turn b role (not s.is_on) s
    else (s, err_response (ascii "unknown command: " ++ req.cmd))

unfoldable pub is_switching : Bytes → Bool
is_switching cmd = cmd == ascii "on" || cmd == ascii "off" || cmd == ascii "toggle"

-- The light in the storage, if the command may have changed it.
unfoldable pub keep_light :
    {V S : Type 0} → Board V S → Request V → Response V → Switch → DeviceState S → DeviceState S
unfolding is_switching
keep_light b req response s d =
    if is_switching req.cmd && response.succeeded then save_led_state b s.is_on d else d

-- What a command gives: the response's bytes, and the new preimage with its commit.
abbrev pub Handled : Type 0 → Type 0
Handled S = DeviceState S × Switch × Bytes × Option (Bytes × Bytes)

-- A command that was read, from a peer that was found.
unfoldable pub perform :
    {V S : Type 0}
    → Board V S
    → Bytes
    → Bytes
    → Bytes
    → PeerRecord
    → Request V
    → DeviceState S
    → Switch
    → Result (Handled S)
unfolding dispatch_command keep_light
perform b fresh preimage peer_id52 p request d s =
    let (s, response) = dispatch_command b d p.role request s in
    do
      (d, renewed) ← renew_preimage b fresh peer_id52 preimage (keep_light b request response s d)
      ok (d, s, b.json.write_response response, renewed)

unfoldable pub handle_command :
    {V S : Type 0}
    → Board V S
    → Bytes
    → IncomingMessage
    → DeviceState S
    → Switch
    → Result (Handled S)
unfolding perform
handle_command b fresh msg d s = elim (lookup_preimage b msg.preimage d) [
  | none ↦ ok (d, s, b.json.write_response (err_response (ascii "unauthorized")), none)
  | some (peer_id52, p) ↦ elim (b.json.read_request msg.payload) [
    | bad e ↦ ok (d, s, b.json.write_response (err_response (ascii "invalid request: " ++ e)), none)
    | good request ↦ perform b fresh msg.preimage peer_id52 p request d s
  ]
]
