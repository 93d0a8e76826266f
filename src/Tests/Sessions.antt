-- ===== src/Tests/Sessions.antt =====
-- Runs of the session (server/internal/session/session.go) and of the registry
-- (server/internal/session/registry.go).
use server_jt.Base.{◌≡◌, refl, not, ◌&&◌, none, some, [], ◌∷◌, ◌++◌, arith, if◌then◌else◌}
use server_jt.Base.Text.{ascii, same}
use server_jt.Protocol.Types.{Bytes}
use server_jt.Session.{Session, new_session}
use server_jt.World.{started, World, put_online, drop_online}
use server_jt.Registry.{register, unregister}
use server_jt.Registry.Map.{get}
use server_jt.Registry.Laws.{holds, unregister_lem}
use server_jt.Registry.Score.{to_float64, spacing, nearest, rounds_up}
use server_jt.Registry.Redis.{online_after, run_tasks}
use server_jt.Registry.Online.{reconnect_goes_offline}

abbrev pub phone : Bytes
phone = ascii "13900000001"

-- A connection whose counter is about to wrap.
abbrev pub online : Session
online = record (new_session (ascii "10.0.0.1:4000") 1700000000) {
  phone = phone;
  out_seq = 4294967295;
}

-- The sessions 0 and 1 belong to the phone, and the registry names the first.
abbrev pub world : World
world = record { sessions = λ i. online; local = (phone, 0) ∷ []; pending = []; trace = [] }

unregister_lem_example :
    let phone = (world.sessions 0).phone in
    let w' = unregister 0 world in
    ((j : Bytes)
      → get j w'.local ≡ (
          if not (same phone []) && (same phone j && holds 0 (get phone world.local))
          then none
          else get j world.local))
    × (w'.pending ≡ (if same phone [] then world.pending else world.pending ++ drop_online 0 ∷ []))
    × (w'.trace ≡ (if same phone [] then world.trace else started (drop_online 0) ∷ world.trace))
    × (w'.sessions ≡ world.sessions)
unregister_lem_example = unregister_lem 0 world

reconnect_goes_offline_example :
    let w' = unregister 0 (register 1 world) in
    (get (world.sessions 1).phone w'.local ≡ some 1)
    × (w'.pending ≡ world.pending ++ put_online 1 ∷ drop_online 0 ∷ [])
    × (online_after
          (world.sessions 1).phone
          (run_tasks (ascii "session:") 1700000000000000000 w' (put_online 1 ∷ drop_online 0 ∷ []))
          (some 5)
        ≡ none)
unfolding get new_session same
reconnect_goes_offline_example =
    reconnect_goes_offline 0 1 world (ascii "session:") 1700000000000000000 (some 5) (omega arith)
      refl (ground arith) refl

-- In these years the numbers with 53 bits are 256 nanoseconds apart.
rounded_time : to_float64 1700000000000000129 ≡ 1700000000000000256
unfolding to_float64 spacing nearest rounds_up
rounded_time = refl
