-- ===== src/Device/Replies.antt =====
-- The device reads the replies of the server (`readACK`, and the registration in `runDevice`).
use server_jt.Base.{ℕ, ◌≡◌, ap, ◌∙◌, none, some, ◌++◌, arith, ◌==◌, if◌then◌else◌}
use server_jt.Protocol.Types.{
  Bytes, IsU16, result_ok, reg_success, msg_registration_resp, msg_platform_resp,
}
use server_jt.Protocol.Reader.{put_u16}
use server_jt.Protocol.Bcd.{IsPhone}
use server_jt.Protocol.Frame.{
  Frame, ReadError, ok, read_frame, build_platform_ack, build_registration_ack,
}
use server_jt.Protocol.Frame.RoundTrip.{plain_frame}
use server_jt.Session.{Session, ack, send}
use server_jt.Session.Sequence.{wire_seq, read_frame-send}
use server_jt.Device.{token, rejected, reg_reply, refused, check_ack, read_ack, acked}

checked :
    (seq for_msg result : ℕ)
    → IsU16 for_msg
    → check_ack for_msg msg_platform_resp (build_platform_ack seq for_msg result)
      ≡ (if result == result_ok then none else some (refused result))
unfolding check_ack build_platform_ack put_u16
checked seq for_msg result h = ground arith

module _ (e : ReadError) (s : Session) (hp : IsPhone s.phone) (rest : Bytes) where
  -- The acknowledgement that a session writes for a frame is the one that the device waits for
  -- behind that frame: it succeeds for the result 0 and reports any other result.
  pub read_ack-ack :
      (f : Frame) (result : ℕ)
      → IsU16 f.msg_id
      → read_ack e f.msg_id ((ack f result s).1 ++ rest)
        ≡ (if result == result_ok then none else some (refused result), rest)
  unfolding read_ack acked ack plain_frame
  read_ack-ack f result h =
      ap (acked f.msg_id) (read_frame-send e msg_platform_resp _ rest s (omega arith) hp)
      ∙ ap (λ o. (o, rest)) (checked f.seq_num f.msg_id result h)

  -- The reply to an accepted registration gives the device the token that the server has stored,
  -- and that to a refused one its result code.
  pub reg_reply-send :
      (seq result : ℕ) (tok : Bytes)
      → let frame =
          plain_frame msg_registration_resp s.phone
            (wire_seq s)
            (build_registration_ack seq result tok) in
        (read_frame e
            ((send msg_registration_resp (build_registration_ack seq result tok) s).1 ++ rest)
          ≡ ok (frame, rest))
        × (reg_reply frame ≡ (if result == reg_success then token tok else rejected result))
  unfolding reg_reply build_registration_ack put_u16 plain_frame
  reg_reply-send seq result tok =
      (read_frame-send e msg_registration_resp _ rest s (omega arith) hp, ground arith)
