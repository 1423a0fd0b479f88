-- ===== src/Proto/Frame.antt =====
-- `Frame`, the message types and `async_io`, bhumi-proto/src/lib.rs. A reader is the bytes that it
-- has not yet given; a writer is the bytes written so far, and its writes succeed.
use bhumi.Base.{
  ℕ, zero, suc, ◌+◌, ◌-◌, ◌*◌, ◌/◌, ◌%◌, ◌^◌, ◌≤◌, ◌<◌, ◌≡◌, ◌≢◌, refl, sym, ap, ◌∙◌, List, [], ◌∷◌,
  ◌++◌, ◌&&◌, arith, ltb, leb, nat_eq, if◌then◌else◌, length, get_or, take, drop, concat, All,
  Result, ok, err, panic, invalid_data, ◌>>=◌, append_assoc, length-append, concat-snoc,
  concat-append, append-nil, Bool-cases, inl, inr, map, >>=-ne-panic, >>=-eq-ok, true, false, not,
  String,
}
use bhumi.Proto.Buffer.{
  Bytes, IsByte, be16, be32, as_u16, as_u32, index, slice, array, read_u16, read_u32, cut, u16_at,
  u32_at, index_ok, slice_ok, array_ok, read_u16_ok, read_u32_ok, cut_piece, u16_piece, u32_piece,
  byte_piece, byte-drop, tag-drop, length-concat, length-be16, length-be32, length-cut, cut-drop,
  AreBytes, be16-u16_at, be32-u32_at, u16_at-lt, u32_at-lt, total, cut-append, u32_at-be32,
}
pub mod Stream
use bhumi.Base.{
  unexpected_eof, take-append, drop-append, length-take, take-append-drop, length-drop, All-take,
}
use bhumi.Proto.Hello
use bhumi.Proto.Hello.{Hello}
use bhumi.Proto.IAm
use bhumi.Proto.IAm.{IAm}
use bhumi.Proto.Send
use bhumi.Proto.Send.{Send}
use bhumi.Proto.Deliver
use bhumi.Proto.Deliver.{Deliver}
use bhumi.Proto.Ack
use bhumi.Proto.Ack.{Ack}
use bhumi.Proto.SendResult
use bhumi.Proto.SendResult.{SendResult}
use bhumi.Proto.UpdateCommits
use bhumi.Proto.UpdateCommits.{UpdateCommits}

abbrev pub msg_hello : ℕ
msg_hello = 0x0001

abbrev pub msg_i_am : ℕ
msg_i_am = 0x0002

abbrev pub msg_send : ℕ
msg_send = 0x0003

abbrev pub msg_deliver : ℕ
msg_deliver = 0x0004

abbrev pub msg_ack : ℕ
msg_ack = 0x0005

abbrev pub msg_keepalive : ℕ
msg_keepalive = 0x0006

abbrev pub msg_send_result : ℕ
msg_send_result = 0x0007

abbrev pub msg_update_commits : ℕ
msg_update_commits = 0x0008

pub record Frame : Type 0 where
  pub msg_type : ℕ
  pub payload : Bytes

unfoldable pub new : ℕ → Bytes → Frame
new msg_type payload = record { msg_type = msg_type; payload = payload }

unfoldable pub hello : Hello → Frame
unfolding new
hello m = new msg_hello (Hello.to_bytes m)

unfoldable pub i_am : IAm → Frame
unfolding new
i_am m = new msg_i_am (IAm.to_bytes m)

unfoldable pub send : Send → Frame
unfolding new
send m = new msg_send (Send.to_bytes m)

unfoldable pub deliver : Deliver → Frame
unfolding new
deliver m = new msg_deliver (Deliver.to_bytes m)

unfoldable pub ack : Ack → Frame
unfolding new
ack m = new msg_ack (Ack.to_bytes m)

unfoldable pub send_result : SendResult → Frame
unfolding new
send_result m = new msg_send_result (SendResult.to_bytes m)

unfoldable pub update_commits : UpdateCommits → Frame
unfolding new
update_commits m = new msg_update_commits (UpdateCommits.to_bytes m)

-- `write_all`: what was written before, and the new bytes.
abbrev write_all : Bytes → Bytes → Bytes
write_all bytes writer = writer ++ bytes

unfoldable pub write_to : Frame → Bytes → Bytes
write_to f writer =
    let len = as_u32 (length f.payload) in
    let writer = write_all (be16 f.msg_type) writer in
    let writer = write_all (be32 len) writer in write_all f.payload writer

-- `read_exact` into an array of `n` bytes.
unfoldable pub read_exact : ℕ → Bytes → Result (Bytes × Bytes)
read_exact n reader =
    if ltb (length reader) n then err unexpected_eof else ok (take n reader, drop n reader)

unfoldable pub read_from : Bytes → Result (Frame × Bytes)
unfolding read_exact
read_from reader = do
  (header, reader) ← read_exact 6 reader
  msg_type ← read_u16 header 0
  len ← read_u32 header 2
  if ltb (1024 * 1024) len then err (invalid_data "frame too large") else do
    (payload, reader) ← read_exact len reader
    ok (record { msg_type = msg_type; payload = payload }, reader)

-- `async_io::write_frame` and `async_io::read_frame`, where each `.await` runs to its end.
unfoldable pub write_frame : Bytes → Frame → Bytes
write_frame writer frame =
    let len = as_u32 (length frame.payload) in
    let writer = write_all (be16 frame.msg_type) writer in
    let writer = write_all (be32 len) writer in write_all frame.payload writer

unfoldable pub read_frame : Bytes → Result (Frame × Bytes)
unfolding read_exact
read_frame reader = do
  (header, reader) ← read_exact 6 reader
  msg_type ← read_u16 header 0
  len ← read_u32 header 2
  if ltb (1024 * 1024) len then err (invalid_data "frame too large") else do
    (payload, reader) ← read_exact len reader
    ok (record { msg_type = msg_type; payload = payload }, reader)
