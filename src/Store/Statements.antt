-- ===== src/Store/Statements.antt =====
-- server/internal/store/device.go: the text of the statements, with the names of the table and of
-- its columns from the settings, and their arguments. A `?` takes one argument.
use server_jt.Base.{
  ℕ, suc, ◌+◌, ◌≡◌, refl, ◌∙◌, List, [], ◌∷◌, ◌++◌, ◌==◌, if◌then◌else◌, length, arith, All,
}
use server_jt.Base.Int.{ℤ}
use server_jt.Base.Text.{ascii}
use server_jt.Protocol.Types.{Bytes}
use server_jt.Configuration.{Config}
use server_jt.Store.{device_name, notes}

pub data Argument : Type 0 where
  text : Bytes → Argument
  number : ℤ → Argument

unfoldable pub select_statement : Config → Bytes
select_statement cfg =
    ascii "SELECT "
    ++ (cfg.db_status_column
        ++ (ascii " FROM "
            ++ (cfg.db_devices_table
                ++ (ascii " WHERE " ++ (cfg.db_broadcast_column ++ ascii " = ? LIMIT 1")))))

-- The names in front of the last one, each with a comma behind it.
listed : List Bytes → Bytes → Bytes
listed [] last = last
listed (name ∷ names) last = name ++ (ascii ", " ++ listed names last)

-- The columns of a new row but the last one.
abbrev columns : Config → List Bytes
columns cfg =
    cfg.db_type_id_column ∷ cfg.db_broadcast_column ∷ cfg.db_name_column ∷ cfg.db_status_column
    ∷ cfg.db_notes_column ∷ cfg.db_created_at_column ∷ []

unfoldable pub insert_statement : Config → Bytes
unfolding listed
insert_statement cfg =
    ascii "\n\t\tINSERT INTO "
    ++ (cfg.db_devices_table
        ++ (ascii "\n\t\t\t("
            ++ (listed (columns cfg) cfg.db_updated_at_column
                ++ ascii ")\n\t\tVALUES\n\t\t\t(?, ?, ?, 'pending', ?, ?, ?)\n\t")))

-- `now` is the time in MySQL's format.
unfoldable pub insert_arguments : Config → Bytes → Bytes → Bytes → Bytes → List Argument
insert_arguments cfg broadcast_id model device_id now =
    number cfg.db_device_type_id
    ∷ text broadcast_id
    ∷ text (device_name device_id broadcast_id)
    ∷ text (notes model device_id)
    ∷ text now
    ∷ text now
    ∷ []

-- The gap since the last heartbeat, and its time.
abbrev assignments : Bytes
assignments =
    ascii "\n\t\tSET heartbeat_interval_s = CASE WHEN last_heartbeat_at IS NULL "
    ++ ascii "THEN heartbeat_interval_s\n\t\t                                "
    ++ ascii "ELSE TIMESTAMPDIFF(SECOND, last_heartbeat_at, UTC_TIMESTAMP()) END,\n\t\t    "
    ++ ascii "last_heartbeat_at = UTC_TIMESTAMP()\n\t\tWHERE "

unfoldable pub heartbeat_statement : Config → Bytes
heartbeat_statement cfg =
    ascii "\n\t\tUPDATE "
    ++ (cfg.db_devices_table ++ (assignments ++ (cfg.db_broadcast_column ++ ascii " = ?\n\t")))

-- The statements that look a device up and that record its heartbeat take its broadcast id.
unfoldable pub id_arguments : Bytes → List Argument
id_arguments broadcast_id = text broadcast_id ∷ []

-- How many arguments a text takes.
unfoldable pub places : Bytes → ℕ
places [] = 0
places (b ∷ bs) = if b == b'?' then suc (places bs) else places bs

places-++ : (a b : Bytes) → places (a ++ b) ≡ places a + places b
unfolding places
places-++ [] b = omega arith
places-++ (x ∷ a) b = ground (arith, places-++ a b)

abbrev pub names : Config → List Bytes
names cfg =
    cfg.db_devices_table ∷ cfg.db_type_id_column ∷ cfg.db_broadcast_column ∷ cfg.db_name_column
    ∷ cfg.db_status_column ∷ cfg.db_notes_column ∷ cfg.db_created_at_column
    ∷ cfg.db_updated_at_column ∷ []

skip :
    (words name rest : Bytes)
    → places words ≡ 0
    → places name ≡ 0
    → places (words ++ (name ++ rest)) ≡ places rest
skip words name rest hw hn =
    omega (arith, places-++ words (name ++ rest), places-++ name rest, hw, hn)

listed-plain :
    (ns : List Bytes) (last : Bytes)
    → All (λ name. places name ≡ 0) ns
    → places last ≡ 0
    → places (listed ns last) ≡ 0
unfolding listed places
listed-plain [] last h hl = hl
listed-plain (name ∷ ns) last h hl =
    places-++ name (ascii ", " ++ listed ns last) ∙ omega (arith, h.0, listed-plain ns last h.1 hl)

-- Each statement gets as many arguments as it takes, if no configured name has a `?` in it.
pub statements_take_arguments :
    (cfg : Config) (broadcast_id model device_id now : Bytes)
    → All (λ name. places name ≡ 0) (names cfg)
    → (places (select_statement cfg) ≡ length (id_arguments broadcast_id))
      × (places (insert_statement cfg)
          ≡ length (insert_arguments cfg broadcast_id model device_id now))
      × (places (heartbeat_statement cfg) ≡ length (id_arguments broadcast_id))
unfolding select_statement insert_statement heartbeat_statement id_arguments insert_arguments places
    listed
statements_take_arguments cfg broadcast_id model device_id now h =
    let (table, (type_id, (broadcast, (name, (st, (note, (created, (updated, _)))))))) = h in
    (
      skip (ascii "SELECT ") cfg.db_status_column _ refl st
          ∙ skip (ascii " FROM ") cfg.db_devices_table _ refl table
          ∙ skip (ascii " WHERE ") cfg.db_broadcast_column _ refl broadcast,
      skip (ascii "\n\t\tINSERT INTO ") cfg.db_devices_table _ refl table
          ∙ skip (ascii "\n\t\t\t(") (listed (columns cfg) cfg.db_updated_at_column) _ refl (
              listed-plain (columns cfg) cfg.db_updated_at_column
                (type_id, (broadcast, (name, (st, (note, (created, tt)))))) updated),
      skip (ascii "\n\t\tUPDATE ") cfg.db_devices_table _ refl table
          ∙ skip assignments cfg.db_broadcast_column _ refl broadcast,
    )
