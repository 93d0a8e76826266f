-- ===== src/Registry/Redis.antt =====
-- server/internal/session/registry.go: the Redis commands of the registry's goroutines and of
-- `PruneStale`, and the sorted set of online phones that they keep. A goroutine reads the session's
-- phone number when it runs. Scores are nanoseconds, rounded to a `float64`.
use server_jt.Base.{ℕ, ◌/◌, Option, none, some, List, [], ◌∷◌, ◌++◌, leb, if◌then◌else◌}
use server_jt.Base.Int.{ℤ, pos, negsuc, sub_ℕ}
use server_jt.Base.Text.{same}
use server_jt.Protocol.Types.{Bytes}
use server_jt.Registry.Score.{to_float64, to_score}
use server_jt.World.{
  World, Task, put_online, refresh_online, drop_online, publish_event, publish_location,
}

pub data Command : Type 0 where
  hset_session : Bytes → Bytes → Bytes → ℕ → Command
  hset_heartbeat : Bytes → ℕ → Command
  expire : Bytes → ℕ → Command
  zadd : ℕ → Bytes → Command
  del : Bytes → Command
  zrem : Bytes → Command
  zrem_up_to : ℤ → Command

-- The pipeline of a task at the time `nanos`, with the prefix of the session keys.
unfoldable pub commands : Bytes → ℕ → World → Task → List Command
commands prefix nanos w (put_online sid) =
    let s = w.sessions sid in
    hset_session (prefix ++ s.phone) s.phone s.imei (nanos / 1000000000)
    ∷ expire (prefix ++ s.phone) 86400
    ∷ zadd (to_float64 nanos) s.phone
    ∷ []
commands prefix nanos w (refresh_online sid) =
    let s = w.sessions sid in
    hset_heartbeat (prefix ++ s.phone) (nanos / 1000000000)
    ∷ expire (prefix ++ s.phone) 86400
    ∷ zadd (to_float64 nanos) s.phone
    ∷ []
commands prefix nanos w (drop_online sid) =
    let s = w.sessions sid in del (prefix ++ s.phone) ∷ zrem s.phone ∷ []
commands prefix nanos w (publish_event name phone _) = []
commands prefix nanos w (publish_location phone loc) = []

-- `PruneStale` at the time `nanos`: the cutoff is `ttl` before now.
unfoldable pub prune_stale : ℕ → ℕ → Command
prune_stale nanos ttl = zrem_up_to (to_score (sub_ℕ nanos ttl))

unfoldable pub above : ℤ → Option ℕ → Option ℕ
above cutoff none = none
above (pos c) (some score) = if leb score c then none else some score
above (negsuc c) (some score) = some score

-- The score under which Redis has `p` in the sorted set after the commands, `none` if it has not:
-- ZADD sets the score, ZREM removes the member, ZREMRANGEBYSCORE those up to a score.
unfoldable pub online_after : Bytes → List Command → Option ℕ → Option ℕ
online_after p [] o = o
online_after p (zadd score m ∷ cs) o = online_after p cs (if same m p then some score else o)
online_after p (zrem m ∷ cs) o = online_after p cs (if same m p then none else o)
online_after p (zrem_up_to cutoff ∷ cs) o = online_after p cs (above cutoff o)
online_after p (hset_session k x y n ∷ cs) o = online_after p cs o
online_after p (hset_heartbeat k n ∷ cs) o = online_after p cs o
online_after p (expire k n ∷ cs) o = online_after p cs o
online_after p (del k ∷ cs) o = online_after p cs o

-- The tasks run one after the other in this world.
unfoldable pub run_tasks : Bytes → ℕ → World → List Task → List Command
run_tasks prefix nanos w [] = []
run_tasks prefix nanos w (t ∷ ts) = commands prefix nanos w t ++ run_tasks prefix nanos w ts
