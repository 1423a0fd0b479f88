-- ===== src/Relay/Session/Auth.antt =====
-- Who may register and add commits, bhumi-relay/src/session.rs.
use bhumi.Base.{
  ℕ, ◌≡◌, ◌≢◌, arith, [], ◌∷◌, Bool, true, some, nat_eq, ok, >>=-eq-ok, concat, inl, inr,
  Bool-cases, bytes_has_eq,
}
use bhumi.Proto.Buffer.{Bytes, be32}
use bhumi.Proto.IAm
use bhumi.Proto.IAm.{IAm}
use bhumi.Proto.Frame.{Frame, msg_i_am}
use bhumi.Relay.Session.{
  Context, World, handle_i_am, handle_frame, frame_i_am, frame_send, frame_ack,
  frame_update_commits, handle_send, handle_ack_frame, handle_update_commits,
}

-- The message that a device signs.
abbrev pub challenge : ℕ → Bytes → Bytes
challenge nonce id52 = concat (be32 nonce ∷ id52 ∷ [])

-- The identity that a session takes on is one whose key signed the session's nonce.
abbrev pub IsSigned : Context → World → IAm → Type 0
IsSigned c w i_am =
    (c.verifier.is_key i_am.id52 ≡ true)
    × (c.verifier.verify i_am.id52 (challenge w.nonce i_am.id52) i_am.signature ≡ true)

handle_i_am_inv :
    (c : Context) (i_am : IAm) (w w' : World)
    → handle_i_am c i_am w ≡ ok w'
    → IsSigned c w i_am × (w'.id52 ≡ some i_am.id52)
unfolding handle_i_am
handle_i_am_inv c i_am w w' e = ground arith

frame_i_am_inv :
    (c : Context) (payload : Bytes) (w w' : World) (go : Bool)
    → frame_i_am c payload w ≡ ok (w', go)
    → (i_am : IAm) × (IAm.from_bytes payload ≡ ok i_am)
      × IsSigned c w i_am
      × (w'.id52 ≡ some i_am.id52)
unfolding frame_i_am
frame_i_am_inv c payload w w' go e =
    let (i_am, p, e') = >>=-eq-ok (IAm.from_bytes payload) _ e in
    let (v, h, e'') = >>=-eq-ok (handle_i_am c i_am w) _ e' in
    let (signed, id) = handle_i_am_inv c i_am w v h in (i_am, p, signed, ground (arith, id))

others_keep_id52 :
    (c : Context) (frame : Frame) (w w' : World) (go : Bool)
    → frame.msg_type ≢ msg_i_am
    → handle_frame c frame w ≡ ok (w', go)
    → w'.id52 ≡ w.id52
unfolding handle_frame frame_send frame_ack frame_update_commits handle_send handle_ack_frame
    handle_update_commits
others_keep_id52 c frame w w' go n e = ground arith

-- A session's identity changes only by an I_AM whose signature over the session's nonce and the
-- identity is good for the identity's key.
pub handle_frame-IsSigned :
    (c : Context) (frame : Frame) (w w' : World) (go : Bool)
    → handle_frame c frame w ≡ ok (w', go)
    → w'.id52 ≢ w.id52
    → (i_am : IAm) × (IAm.from_bytes frame.payload ≡ ok i_am)
      × IsSigned c w i_am
      × (w'.id52 ≡ some i_am.id52)
handle_frame-IsSigned c frame w w' go e changed =
    elim (Bool-cases (nat_eq frame.msg_type msg_i_am)) [
      | inl t ↦ frame_i_am_inv c frame.payload w w' go (unfold handle_frame in rw t at e)
      | inr f ↦ absurd (changed (others_keep_id52 c frame w w' go (ground arith) e))
    ]
