-- ===== src/Network/Answer.antt =====
-- The answer on its way back: the two frames that bhumi-node/src/node.rs writes, and what
-- bhumi-relay/src/session.rs does with them.
use bhumi.Base.{
  ℕ, ◌-◌, ◌*◌, ◌^◌, ◌≤◌, ◌<◌, ◌≡◌, refl, [], ◌∷◌, ok, arith, length, bytes_has_eq, nat_has_eq, some,
  true, append-nil, All,
}
use bhumi.Proto.Buffer.{Bytes}
use bhumi.Proto.Ack
use bhumi.Proto.Ack.{Ack}
use bhumi.Proto.UpdateCommits
use bhumi.Proto.UpdateCommits.{UpdateCommits}
use bhumi.Proto.Frame
use bhumi.Proto.Frame.{Frame, write_frame, write_to}
use bhumi.Proto.Frame.Stream
use bhumi.Proto.Frame.Stream.{
  read_frames, write_frames, read_frames-write_frames, read_frame-read_from,
}
use bhumi.Relay.Router.{add_commits, handle_ack}
use bhumi.Relay.Session.{
  Context, World, incoming, running, handle_frame, frame_ack, frame_update_commits,
  handle_ack_frame, handle_update_commits, add_own_commits, run_loop,
}
use bhumi.Node.Connection.{Connection, put_frame, send_ack, update_commits}
use bhumi.Node.Connection.Wire.{Ack-alone, UpdateCommits-alone, length-ack, length-one_commit}

-- The two frames: a new commit, and the answer to a message.
abbrev pub commit_frame : Bytes → Frame
commit_frame commit = Frame.update_commits (record { commits = commit ∷ [] })

abbrev pub ack_frame : ℕ → Bytes → Frame
ack_frame msg_id sent = Frame.ack (record { msg_id = msg_id; payload = sent })

-- A commit and an answer that frames can carry.
pub record IsAnswer (commit : Bytes) (msg_id : ℕ) (sent : Bytes) : Type 0 where
  pub commit_size : length commit ≡ 32
  pub msg_id_size : msg_id < 2 ^ 32
  pub sent_size : length sent ≤ 1024 * 1024 - 8

module _ (commit : Bytes) (msg_id : ℕ) (sent : Bytes) (v : IsAnswer commit msg_id sent) where
  frames-IsValid : All Stream.IsValid (commit_frame commit ∷ ack_frame msg_id sent ∷ [])
  unfolding Frame.update_commits Frame.ack Frame.new
  frames-IsValid = (
    record {
      type_size = omega arith;
      payload_size = omega (arith, length-one_commit commit, v.commit_size);
    },
    (
      record {
        type_size = omega arith;
        payload_size =
            omega (arith, length-ack (record { msg_id = msg_id; payload = sent }), v.sent_size);
      },
      tt,
    ),
  )

  -- What the node writes is the two frames, in this order.
  pub read_frames-answer :
      (let conn : Connection = record { incoming = []; written = [] } in
        read_frames 2 (send_ack msg_id sent (update_commits (commit ∷ []) conn)).written)
      ≡ ok (commit_frame commit ∷ ack_frame msg_id sent ∷ [], [])
  unfolding send_ack update_commits put_frame write_frames write_frame write_to
  read_frames-answer = rw append-nil at (
      read_frames-write_frames (commit_frame commit ∷ ack_frame msg_id sent ∷ []) [] frames-IsValid)

  -- The device's session takes both: the commit is added to the device's, and then the message is
  -- acknowledged.
  pub run_loop-answer :
      (c : Context) (id : Bytes) (w : World)
      → w.id52 ≡ some id
      → run_loop
          (incoming c (ok (commit_frame commit)) ∷ incoming c (ok (ack_frame msg_id sent)) ∷ [])
          w
        ≡ (
          record w {
            router = (handle_ack c.env.now msg_id sent (add_commits id (commit ∷ []) w.router)).0;
          },
          running,
        )
  unfolding run_loop handle_frame Frame.update_commits Frame.ack Frame.new
  run_loop-answer c id w e =
      let m : UpdateCommits = record { commits = commit ∷ [] } in
      let n : Ack = record { msg_id = msg_id; payload = sent } in
      let mv : UpdateCommits.IsValid m = record {
        commit_size = (v.commit_size, tt);
        commit_count = omega arith;
      } in
      let nv : Ack.IsValid n = record {
        msg_id_size = v.msg_id_size;
        payload_size = omega (arith, v.sent_size);
      } in
      let added = record w { router = add_commits id (commit ∷ []) w.router } in
      let first : handle_frame c (commit_frame commit) w ≡ ok (added, true) =
        unfold frame_update_commits handle_update_commits add_own_commits in
        rw (UpdateCommits-alone m mv, e) refl in
      let second : handle_frame c (ack_frame msg_id sent) added
          ≡ ok (record added { router = (handle_ack c.env.now msg_id sent added.router).0 }, true) =
        unfold frame_ack handle_ack_frame in rw (Ack-alone n nv) refl in
      rw (run_loop, first, second) refl
