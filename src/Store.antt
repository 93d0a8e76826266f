-- ===== src/Store.antt =====
-- server/internal/store/device.go: the approval of a device. MySQL's answers are arguments; a nil
-- store is `db_enabled` false.
pub mod Table
pub mod Statements
use server_jt.Base.{Bool, true, false, [], ◌++◌, if◌then◌else◌}
use server_jt.Base.Text.{ascii, same}
use server_jt.Protocol.Types.{Bytes}
use server_jt.World.{World, emit, device_lookup, device_insert, device_heartbeat}

-- What the query and `Scan` return.
pub data Row : Type 0 where
  status : Bytes → Row
  no_rows lookup_failed : Row

-- The results of `CheckOrCreate`; `check_failed` is an error with `CheckBlocked`.
pub data Approval : Type 0 where
  approved blocked auto_created check_failed : Approval

pub device_name : Bytes → Bytes → Bytes
device_name device_id broadcast_id = if same device_id [] then broadcast_id else device_id

pub notes : Bytes → Bytes → Bytes
notes model device_id =
    ascii "Auto-registered via JT808. Model: " ++ (model ++ (ascii "  DeviceID: " ++ device_id))

inserted : Bool → Approval
inserted true = auto_created
inserted false = check_failed

-- The answers decide the branch; the lookup was made before.
decide_row : Row → Bool → Bytes → Bytes → Bytes → World → Approval × World
unfolding device_name notes inserted
decide_row (status st) insert_ok broadcast_id model device_id w =
    (if same st (ascii "blocked") then blocked else approved, w)
decide_row lookup_failed insert_ok broadcast_id model device_id w = (check_failed, w)
decide_row no_rows insert_ok broadcast_id model device_id w = (
  inserted insert_ok,
  emit
      (device_insert broadcast_id (device_name device_id broadcast_id) (ascii "pending")
        (notes model device_id))
      w,
)

unfoldable pub check_or_create :
    Bool → Row → Bool → Bytes → Bytes → Bytes → World → Approval × World
unfolding decide_row
check_or_create false row insert_ok broadcast_id model device_id w = (approved, w)
check_or_create true row insert_ok broadcast_id model device_id w =
    decide_row row insert_ok broadcast_id model device_id (emit (device_lookup broadcast_id) w)

unfoldable pub record_heartbeat : Bool → Bytes → World → World
record_heartbeat false broadcast_id w = w
record_heartbeat true broadcast_id w = emit (device_heartbeat broadcast_id) w
