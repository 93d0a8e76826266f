-- ===== src/Protocol/Types.antt =====
-- pkg/protocol/types.go: the message identifiers, result codes and flag bits.
use server_jt.Base.{ℕ, ◌<◌, List}

-- A Go byte slice or string is the list of its bytes; a byte is a number below 256.
abbrev pub Bytes : Type 0
Bytes = List ℕ

abbrev pub IsByte : ℕ → Type 0
IsByte b = b < 256

abbrev pub IsU16 : ℕ → Type 0
IsU16 v = v < 65536

abbrev pub msg_terminal_resp : ℕ
msg_terminal_resp = 0x0001

abbrev pub msg_heartbeat : ℕ
msg_heartbeat = 0x0002

abbrev pub msg_registration : ℕ
msg_registration = 0x0100

abbrev pub msg_authentication : ℕ
msg_authentication = 0x0102

abbrev pub msg_terminal_props : ℕ
msg_terminal_props = 0x0120

abbrev pub msg_upgrade_result : ℕ
msg_upgrade_result = 0x0121

abbrev pub msg_acc_status_report : ℕ
msg_acc_status_report = 0x0304

abbrev pub msg_location_report : ℕ
msg_location_report = 0x0200

abbrev pub msg_batch_location : ℕ
msg_batch_location = 0x0704

abbrev pub msg_platform_resp : ℕ
msg_platform_resp = 0x8001

abbrev pub msg_registration_resp : ℕ
msg_registration_resp = 0x8100

abbrev pub reg_success : ℕ
reg_success = 0x00

abbrev pub reg_terminal_not_in_db : ℕ
reg_terminal_not_in_db = 0x04

abbrev pub result_ok : ℕ
result_ok = 0x00

abbrev pub result_fail : ℕ
result_fail = 0x01

abbrev pub result_msg_error : ℕ
result_msg_error = 0x02

-- The flag bits of a location report, as the masks that the source writes `1 << n`.
abbrev pub alarm_sos : ℕ
alarm_sos = 1

abbrev pub alarm_overspeed : ℕ
alarm_overspeed = 2

abbrev pub alarm_low_battery : ℕ
alarm_low_battery = 128

abbrev pub alarm_power_off : ℕ
alarm_power_off = 4096

abbrev pub alarm_vibration : ℕ
alarm_vibration = 65536

abbrev pub status_acc_on : ℕ
status_acc_on = 1

abbrev pub status_located : ℕ
status_located = 2

abbrev pub status_lat_south : ℕ
status_lat_south = 4

abbrev pub status_lon_west : ℕ
status_lon_west = 8
