-- ===== src/Store/Table.antt =====
-- The device table behind `CheckOrCreate`: what MySQL answers while the rows are those of a table
-- and the inserts of the program, and nobody else writes. Texts are compared byte by byte.
use server_jt.Base.{ℕ, suc, ◌≡◌, refl, true, List, [], ◌∷◌, ◌++◌, if◌then◌else◌}
use server_jt.Base.Text.{ascii, same}
use server_jt.Protocol.Types.{Bytes}
use server_jt.World.{World, Effect, device_insert, emit}
use server_jt.Store.{Row, status, no_rows, Approval, blocked, decide_row, check_or_create}

-- The broadcast id and the status of each row.
abbrev pub Table : Type 0
Table = List (Bytes × Bytes)

-- `SELECT status ... WHERE broadcast_id = ? LIMIT 1`.
unfoldable pub select : Bytes → Table → Row
select id [] = no_rows
select id ((other, st) ∷ rows) = if same other id then status st else select id rows

pub rows_of : Bytes → Table → ℕ
rows_of id [] = 0
rows_of id ((other, st) ∷ rows) = if same other id then suc (rows_of id rows) else rows_of id rows

-- The table behind the inserts of the program.
unfoldable pub table_after : Table → List Effect → Table
table_after t [] = t
table_after t (device_insert id name st notes ∷ xs) = table_after t xs ++ (id, st) ∷ []
table_after t (x ∷ xs) = table_after t xs

module _ (t : Table) (id model device_id : Bytes) where
  -- A check that MySQL answers from the table.
  pub check : World → Approval × World
  check w = check_or_create true (select id (table_after t w.trace)) true id model device_id w

  -- A device whose row is blocked is turned away at every check, and the table stays.
  pub blocked_device_stays_out :
      (w : World)
      → select id (table_after t w.trace) ≡ status (ascii "blocked")
      → ((check w).0 ≡ blocked)
        × ((check (check w).1).0 ≡ blocked)
        × (table_after t (check (check w).1).1.trace ≡ table_after t w.trace)
  unfolding check check_or_create decide_row table_after emit same
  blocked_device_stays_out w h = rw h (rw h (refl, refl, refl))
