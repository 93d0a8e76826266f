-- ===== src/Device.antt =====
-- device/p901/main.go: the simulated tracker, the other side of the protocol. A position holds the
-- whole numbers to which the floating point state is cut for the wire; the clock and the random
-- signal strength are arguments.
pub mod Registers
pub mod Reports
pub mod Replies
pub mod Run
pub mod State
pub mod Settings
pub mod Advance
pub mod Signals
pub mod Journey
pub mod Arrivals
pub mod Ticks
pub mod Conversation
pub mod Admission
use server_jt.Base.{
  ℕ, ◌+◌, ◌-◌, ◌*◌, ◌/◌, ◌%◌, Bool, true, false, Option, none, some, List, [], ◌∷◌, ◌++◌, ltb, ◌==◌,
  ◌||◌, not, if◌then◌else◌, length, take, drop, replicate, bit_or,
}
use server_jt.Base.Int.{ℤ, pos, negsuc, exceeds}
use server_jt.Base.Text.{ascii}
use server_jt.Protocol.Types.{
  Bytes, status_acc_on, status_located, status_lat_south, status_lon_west, msg_platform_resp,
  msg_registration_resp, reg_success, result_ok,
}
use server_jt.Protocol.Reader.{put_u16, put_u32}
use server_jt.Protocol.Frame.{Frame, FrameError, ReadError, Result, ok, err, read_frame}
use server_jt.Protocol.Location.{Degrees}

pub record Position : Type 0 where
  pub latitude : Degrees
  pub longitude : Degrees
  pub altitude : ℕ
  -- In tenths of a km/h.
  pub speed : ℕ
  pub heading : ℕ
  pub battery : ℤ

pub record Clock : Type 0 where
  pub year : ℕ
  pub month : ℕ
  pub day : ℕ
  pub hour : ℕ
  pub minute : ℕ
  pub second : ℕ

unfoldable pub pad_right : Bytes → ℕ → Bytes
pad_right s n = take n s ++ replicate (n - length s) 0

-- The last seven characters.
unfoldable pub dev_id : Bytes → Bytes
dev_id imei = if ltb 7 (length imei) then drop (length imei - 7) imei else imei

unfoldable pub build_reg_body : Bytes → Bytes → Bytes
build_reg_body imei model =
    put_u16 6
    ++ (put_u16 1
        ++ (pad_right (ascii "SIMCO") 5
            ++ (pad_right model 20 ++ (pad_right (dev_id imei) 7 ++ 0x02 ∷ ascii "P901"))))

-- `byte((n/10)<<4 | (n % 10))`.
unfoldable pub bcd : ℕ → ℕ
bcd n = bit_or (n / 10 * 16) (n % 10) % 256

unfoldable pub bcd_timestamp : Clock → Bytes
bcd_timestamp t =
    bcd (t.year % 100) ∷ bcd t.month ∷ bcd t.day ∷ bcd t.hour ∷ bcd t.minute ∷ bcd t.second ∷ []

below : ℤ → ℕ → Bool
below (pos n) lo = ltb n lo
below (negsuc n) lo = true

unfoldable pub clamp : ℤ → ℕ → ℕ → ℤ
unfolding below
clamp v lo hi = if below v lo then pos lo else if exceeds v hi then pos hi else v

-- The conversion of an `int` to a `byte`.
unfoldable pub byte_of : ℤ → ℕ
byte_of (pos n) = n % 256
byte_of (negsuc n) = 255 - n % 256

-- `statusFlags` behind the two tests of the hemispheres.
unfoldable pub sent_flags : Bool → Bool → ℕ
sent_flags south west =
    let located = bit_or status_located status_acc_on in
    let with_lat = if south then bit_or located status_lat_south else located in
    if west then bit_or with_lat status_lon_west else with_lat

unfoldable pub build_location_body : Position → Clock → ℕ → Bytes
build_location_body p t csq =
    put_u32 0
    ++ (put_u32 (sent_flags p.latitude.negative p.longitude.negative)
        ++ (put_u32 p.latitude.micro
            ++ (put_u32 p.longitude.micro
                ++ (put_u16 p.altitude
                    ++ (put_u16 p.speed
                        ++ (put_u16 p.heading
                            ++ (bcd_timestamp t
                                ++ 0xeb
                                  ∷ 0x01
                                  ∷ byte_of (clamp p.battery 0 100)
                                  ∷ 0x30
                                  ∷ 0x01
                                  ∷ csq
                                  ∷ [])))))))

-- What `runDevice` makes of the reply to its registration.
pub data RegReply : Type 0 where
  token : Bytes → RegReply
  unexpected rejected : ℕ → RegReply

unfoldable pub reg_reply : Frame → RegReply
reg_reply f = reg_body f.msg_id f.body
  where
    reg_body : ℕ → Bytes → RegReply
    reg_body id (a ∷ b ∷ result ∷ rest) =
        if not (id == msg_registration_resp)
        then unexpected id
        else if result == reg_success
        then token rest
        else rejected result
    reg_body id (a ∷ b ∷ []) = unexpected id
    reg_body id (a ∷ []) = unexpected id
    reg_body id [] = unexpected id

-- The error returns of `readACK`.
pub data AckError : Type 0 where
  read_failed : FrameError → AckError
  not_an_ack : ℕ → AckError
  wrong_message : ℕ → AckError
  refused : ℕ → AckError

-- `readACK` on the frame that was read: a body of fewer than five bytes is not looked at.
pub check_ack : ℕ → ℕ → Bytes → Option AckError
check_ack for_msg id (a ∷ b ∷ c ∷ d ∷ result ∷ rest) =
    if not (id == msg_platform_resp)
    then some (not_an_ack id)
    else if not (c * 256 + d == for_msg)
    then some (wrong_message (c * 256 + d))
    else if result == result_ok
    then none
    else some (refused result)
check_ack for_msg id short = if not (id == msg_platform_resp) then some (not_an_ack id) else none

acked : ℕ → Result (Frame × Bytes) → Option AckError × Bytes
unfolding check_ack
acked for_msg (err x) = (some (read_failed x), [])
acked for_msg (ok (f, rest)) = (check_ack for_msg f.msg_id f.body, rest)

-- The error, if there is one, and the rest of the stream.
pub read_ack : ReadError → ℕ → Bytes → Option AckError × Bytes
unfolding acked
read_ack e for_msg stream = acked for_msg (read_frame e stream)
