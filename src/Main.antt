-- ===== src/Main.antt =====
-- server/cmd/main.go: `main`. What Redis and MySQL answer to each attempt is an
-- argument, with whether the context was cancelled during the wait behind a failed one. The signal
-- handler only cancels the context; flags of the logger are left out.
pub mod Ready
use server_jt.Base.{
  ℕ, ◌+◌, ◌≡◌, refl, ap, ◌∙◌, Bool, true, false, Option, some, none, List, [], ◌∷◌, ◌++◌,
  if◌then◌else◌, All, arith, append_assoc, map, append-nil,
}
use server_jt.Session.{Session}
use server_jt.Server.Listen.{Accepted, Served, listen_failed, panicked, looped, run, new_world}
use server_jt.Protocol.Types.{Bytes}
use server_jt.Configuration.{Config, my_sql_dsn}

-- The calls that leave the program before the server runs, in their order. A sleep is in seconds.
pub data Call : Type 0 where
  redis_ping mysql_ping : Call
  mysql_open : Bytes → Call
  sleep : ℕ → Call

pub record RedisAttempt : Type 0 where
  pub ping_ok : Bool
  pub cancelled : Bool

pub record DbAttempt : Type 0 where
  pub open_ok : Bool
  pub ping_ok : Bool
  pub cancelled : Bool

-- A wait loop is over, ends the program by `log.Fatal`, or still runs when the attempts end.
pub data Wait : Type 0 where
  ready fatal waiting : Wait

pub behind : List Call → Wait × List Call → Wait × List Call
behind cs (o, ds) = (o, cs ++ ds)

unfoldable pub wait_for_redis : List RedisAttempt → Wait × List Call
unfolding behind
wait_for_redis [] = (waiting, [])
wait_for_redis (a ∷ as') =
    let rest = wait_for_redis as' in
    if a.ping_ok
    then (ready, redis_ping ∷ [])
    else if a.cancelled
    then (fatal, redis_ping ∷ [])
    else behind (redis_ping ∷ sleep 2 ∷ []) rest

-- `store.New` and `Ping`: the calls of one attempt, and whether it was one that ends the loop.
unfoldable pub db_calls : Bytes → DbAttempt → List Call
db_calls dsn a = mysql_open dsn ∷ (if a.open_ok then mysql_ping ∷ [] else [])

unfoldable pub wait_for_db : Bytes → List DbAttempt → Wait × List Call
unfolding behind
wait_for_db dsn [] = (waiting, [])
wait_for_db dsn (a ∷ as') =
    let rest = wait_for_db dsn as' in
    if (if a.open_ok then a.ping_ok else false)
    then (ready, db_calls dsn a)
    else if a.cancelled
    then (fatal, db_calls dsn a)
    else behind (db_calls dsn a ++ sleep 2 ∷ []) rest

unfoldable pub after_redis : Config → List DbAttempt → Wait × List Call → Wait × List Call
unfolding behind
after_redis cfg ds (ready, cs) =
    if cfg.db_enabled then behind cs (wait_for_db (my_sql_dsn cfg) ds) else (ready, cs)
after_redis cfg ds (fatal, cs) = (fatal, cs)
after_redis cfg ds (waiting, cs) = (waiting, cs)

-- `main` up to `srv.Run`.
unfoldable pub start : Config → List RedisAttempt → List DbAttempt → Wait × List Call
start cfg rs ds = after_redis cfg ds (wait_for_redis rs)

-- The status with which the process ends, or that it still runs; the Go runtime ends a panic with 2.
pub data Exit : Type 0 where
  exits : ℕ → Exit
  runs : Exit

unfoldable pub exit_status : Served → Exit
exit_status listen_failed = exits 1
exit_status panicked = exits 2
exit_status (looped l) = if l.ended then exits 0 else runs

-- What the process has done: `served` is `none` where it did not come to `Run`.
pub record Process : Type 0 where
  pub status : Exit
  pub calls : List Call
  pub served : Option Served

-- `log.Fatal` exits with status 1.
unfoldable pub after_start :
    Config → (ℕ → Session) → Bool → List Accepted → Wait × List Call → Process
unfolding exit_status
after_start cfg sessions listens xs (ready, cs) =
    let s = run cfg listens xs (new_world sessions) in
    record { status = exit_status s; calls = cs; served = some s }
after_start cfg sessions listens xs (fatal, cs) = record {
  status = exits 1;
  calls = cs;
  served = none;
}
after_start cfg sessions listens xs (waiting, cs) = record {
  status = runs;
  calls = cs;
  served = none;
}

unfoldable pub main :
    Config → List RedisAttempt → List DbAttempt → (ℕ → Session) → Bool → List Accepted → Process
main cfg rs ds sessions listens xs = after_start cfg sessions listens xs (start cfg rs ds)
