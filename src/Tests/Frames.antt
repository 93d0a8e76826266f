-- ===== src/Tests/Frames.antt =====
-- Runs of `ReadFrame` and `WriteFrame` (pkg/protocol/frame.go).
use server_jt.Base.{◌≡◌, [], ◌∷◌, ◌++◌, arith}
use server_jt.Base.Text.{ascii}
use server_jt.Protocol.Types.{Bytes}
use server_jt.Protocol.Frame.{
  eof, ok, err, checksum_mismatch, flag_byte, xor_checksum, escape, read_frame, write_frame,
}
use server_jt.Protocol.Frame.RoundTrip.{plain_frame, read_frame-write_frame, read_frame-corrupted}

-- "13987654321", and a body that holds both special bytes.
abbrev phone : Bytes
phone = ascii "13987654321"

abbrev body : Bytes
body = 1 ∷ 0x7e ∷ 0x7d ∷ []

read_frame-write_frame_example :
    read_frame eof ((1 ∷ 2 ∷ []) ++ (write_frame 0x0200 phone 126 body ++ 9 ∷ []))
    ≡ ok (plain_frame 0x0200 phone 126 body, 9 ∷ [])
read_frame-write_frame_example =
    read_frame-write_frame 0x0200 126 phone body eof (1 ∷ 2 ∷ []) (9 ∷ []) (omega arith)
      (omega arith) (ground arith) (ground arith)

read_frame-corrupted_example :
    let sent = xor_checksum ((0 ∷ 2 ∷ []) ++ 0 ∷ (0 ∷ 1 ∷ 57 ∷ 0 ∷ 0 ∷ 0 ∷ 1 ∷ 0 ∷ 5 ∷ [])) in
    read_frame eof (
      []
      ++ flag_byte
        ∷ (escape (((0 ∷ 2 ∷ []) ++ 4 ∷ (0 ∷ 1 ∷ 57 ∷ 0 ∷ 0 ∷ 0 ∷ 1 ∷ 0 ∷ 5 ∷ [])) ++ sent ∷ [])
            ++ flag_byte ∷ []))
    ≡ err (
        checksum_mismatch
          (xor_checksum ((0 ∷ 2 ∷ []) ++ 4 ∷ (0 ∷ 1 ∷ 57 ∷ 0 ∷ 0 ∷ 0 ∷ 1 ∷ 0 ∷ 5 ∷ [])))
          sent)
read_frame-corrupted_example =
    read_frame-corrupted eof [] [] (0 ∷ 2 ∷ []) (0 ∷ 1 ∷ 57 ∷ 0 ∷ 0 ∷ 0 ∷ 1 ∷ 0 ∷ 5 ∷ []) 0 4 tt
      (omega arith) (omega arith)
