-- ===== src/Relay/Session/Loop.antt =====
-- How a session ends, bhumi-relay/src/session.rs.
use bhumi.Base.{
  ◌≡◌, ◌≢◌, ◌∙◌, ap, arith, refl, List, [], ◌∷◌, ◌++◌, Bool, true, ok, err, panic, >>=-eq-ok,
  IoError, inl, inr, bytes_has_eq, Result-cases,
}
use bhumi.Proto.Buffer.{Bytes}
use bhumi.Proto.IAm
use bhumi.Proto.IAm.{IAm}
use bhumi.Proto.Frame.{Frame}
use bhumi.Relay.Session.{
  Context, World, Status, running, returned, failed, Input, incoming, outgoing, handle_i_am,
  handle_frame, frame_i_am, frame_send, frame_ack, frame_update_commits, handle_send,
  handle_ack_frame, handle_update_commits, send_delivery, run_loop, run, greet,
}

-- Every arm of `handle_frame` goes on.
frame_i_am-goes_on :
    (c : Context) (payload : Bytes) (w w' : World) (go : Bool)
    → frame_i_am c payload w ≡ ok (w', go)
    → go ≡ true
unfolding frame_i_am
frame_i_am-goes_on c payload w w' go e =
    let (i_am, _, e') = >>=-eq-ok (IAm.from_bytes payload) _ e in
    let (_, _, e'') = >>=-eq-ok (handle_i_am c i_am w) _ e' in ground arith

handle_frame-goes_on :
    (c : Context) (frame : Frame) (w w' : World) (go : Bool)
    → handle_frame c frame w ≡ ok (w', go)
    → go ≡ true
unfolding handle_frame frame_send frame_ack frame_update_commits handle_send handle_ack_frame
    handle_update_commits
handle_frame-goes_on c frame w w' go e = ground (arith, frame_i_am-goes_on c frame.payload w w' go)

run_loop-ne-returned : (inputs : List Input) (w : World) → (run_loop inputs w).1 ≢ returned
unfolding run_loop
run_loop-ne-returned [] w = λ e. cc
run_loop-ne-returned (outgoing delivery ∷ inputs) w =
    run_loop-ne-returned inputs (send_delivery delivery w)
run_loop-ne-returned (incoming c (err x) ∷ inputs) w = λ e. cc
run_loop-ne-returned (incoming c panic ∷ inputs) w = λ e. cc
run_loop-ne-returned (incoming c (ok frame) ∷ inputs) w =
    elim (Result-cases (handle_frame c frame w)) [
      | inl ((w', go), h) ↦
          let k = handle_frame-goes_on c frame w w' go h in
          ground (arith, h, k, run_loop-ne-returned inputs w')
      | inr (inl (x, h)) ↦ ground (arith, h)
      | inr (inr h) ↦ ground (arith, h)
    ]

-- The clean-up is never reached. Whatever a session is sent, `run` does not return: it waits for
-- more, or it leaves by an error, which skips the code that unregisters the device.
pub run-ne-returned : (inputs : List Input) (w : World) → (run inputs w).1 ≢ returned
unfolding run
run-ne-returned inputs w = run_loop-ne-returned inputs (greet w)

run_loop-append :
    (inputs more : List Input) (w w' : World)
    → run_loop inputs w ≡ (w', running)
    → run_loop (inputs ++ more) w ≡ run_loop more w'
unfolding run_loop
run_loop-append [] more w w' e = ap (run_loop more) (ap (λ (p : World × Status). p.0) e)
run_loop-append (outgoing delivery ∷ inputs) more w w' e =
    run_loop-append inputs more (send_delivery delivery w) w' e
run_loop-append (incoming c (err x) ∷ inputs) more w w' e = cc
run_loop-append (incoming c panic ∷ inputs) more w w' e = cc
run_loop-append (incoming c (ok frame) ∷ inputs) more w w' e =
    elim (Result-cases (handle_frame c frame w)) [
      | inl ((v, go), h) ↦
          let k = handle_frame-goes_on c frame w v go h in
          ground (arith, h, k, run_loop-append inputs more v w')
      | inr (inl (x, h)) ↦ ground (arith, h)
      | inr (inr h) ↦ ground (arith, h)
    ]

-- The end of the connection as `run` meets it: after any inputs that it handled, an error of the
-- reader ends the session with the router as it was, so that a device which was registered still is.
pub run-disconnect :
    (inputs : List Input) (w w' : World) (c : Context) (x : IoError)
    → run inputs w ≡ (w', running)
    → run (inputs ++ incoming c (err x) ∷ []) w ≡ (w', failed x)
unfolding run
run-disconnect inputs w w' c x e =
    run_loop-append inputs (incoming c (err x) ∷ []) (greet w) w' e ∙ unfold run_loop in refl
