-- ===== src/Main/Ready.antt =====
-- The server starts once Redis and MySQL answer, however often they failed before.
use server_jt.Base.{
  ℕ, suc, ◌+◌, ◌*◌, some, ◌≡◌, refl, sym, append-nil, ap, ◌∙◌, Bool, true, false, List, [], ◌∷◌,
  ◌++◌, if◌then◌else◌, All, append_assoc,
}
use server_jt.Protocol.Types.{Bytes}
use server_jt.Configuration.{Config, my_sql_dsn}
use server_jt.Base.Int.{pos}
use server_jt.World.{World}
use server_jt.Session.{Session}
use server_jt.Server.Listen.{
  Accepted, accept_error, looped, run, new_world, beside, start_ticker, prune_loop, accept_loop,
}
use server_jt.Server.Listening.{GoesOn, accept_all, errors, accept_loop_lem}
use server_jt.Main.{
  Call, redis_ping, mysql_ping, mysql_open, sleep, RedisAttempt, DbAttempt, ready, behind,
  wait_for_redis, db_calls, wait_for_db, after_redis, start, main, after_start, exit_status, exits,
}

abbrev pub RedisFails : RedisAttempt → Type 0
RedisFails a = (a.ping_ok ≡ false) × (a.cancelled ≡ false)

abbrev pub DbFails : DbAttempt → Type 0
DbFails a = ((if a.open_ok then a.ping_ok else false) ≡ false) × (a.cancelled ≡ false)

-- What failed attempts call, each with its wait.
pub redis_retries : List RedisAttempt → List Call
redis_retries [] = []
redis_retries (a ∷ as') = redis_ping ∷ sleep 2 ∷ redis_retries as'

pub db_retries : Bytes → List DbAttempt → List Call
db_retries dsn [] = []
db_retries dsn (a ∷ as') = db_calls dsn a ++ (sleep 2 ∷ db_retries dsn as')

redis_answers :
    (fs rs : List RedisAttempt) (a : RedisAttempt)
    → All RedisFails fs
    → a.ping_ok ≡ true
    → wait_for_redis (fs ++ a ∷ rs) ≡ (ready, redis_retries fs ++ redis_ping ∷ [])
unfolding wait_for_redis redis_retries behind
redis_answers [] rs a h ok = rw ok refl
redis_answers (f ∷ fs) rs a h ok =
    rw (h.0.0, h.0.1) (ap (behind (redis_ping ∷ sleep 2 ∷ [])) (redis_answers fs rs a h.1 ok))

db_answers :
    (dsn : Bytes) (fs ds : List DbAttempt) (a : DbAttempt)
    → All DbFails fs
    → a.open_ok ≡ true
    → a.ping_ok ≡ true
    → wait_for_db dsn (fs ++ a ∷ ds)
      ≡ (ready, db_retries dsn fs ++ mysql_open dsn ∷ mysql_ping ∷ [])
unfolding wait_for_db db_retries behind db_calls
db_answers dsn [] ds a h opened ok = rw (opened, ok) refl
db_answers dsn (f ∷ fs) ds a h opened ok =
    rw (h.0.0, h.0.1)
      (ap (behind (db_calls dsn f ++ sleep 2 ∷ [])) (db_answers dsn fs ds a h.1 opened ok)
        ∙ ap (λ cs. (ready, cs))
            (append_assoc (db_calls dsn f) (sleep 2 ∷ []) _
              ∙ sym (append_assoc (db_calls dsn f) (sleep 2 ∷ db_retries dsn fs) _)))

then_or_not :
    (b : Bool) (cs ds : List Call)
    → (if b then behind cs (ready, ds) else (ready, cs)) ≡ (ready, cs ++ (if b then ds else []))
unfolding behind
then_or_not true cs ds = refl
then_or_not false cs ds = ap (λ t. (ready, t)) (sym (append-nil cs))

-- When Redis answers a ping and, if the database is enabled, MySQL is opened and answers one, and
-- the context was not cancelled behind the failed attempts before, the server gets ready. Each
-- failed attempt costs two seconds, MySQL is only opened once Redis has answered, and without a
-- database no call goes to it.
pub start_ready :
    (cfg : Config) (fs rs : List RedisAttempt) (r : RedisAttempt) (gs ds : List DbAttempt)
    (d : DbAttempt)
    → All RedisFails fs
    → r.ping_ok ≡ true
    → All DbFails gs
    → d.open_ok ≡ true
    → d.ping_ok ≡ true
    → start cfg (fs ++ r ∷ rs) (gs ++ d ∷ ds) ≡ (
      ready,
      (redis_retries fs ++ redis_ping ∷ [])
          ++ (if cfg.db_enabled
              then db_retries (my_sql_dsn cfg) gs ++ mysql_open (my_sql_dsn cfg) ∷ mysql_ping ∷ []
              else []),
    )
unfolding start after_redis behind
start_ready cfg fs rs r gs ds d hf hr hg ho hp =
    rw (redis_answers fs rs r hf hr, db_answers (my_sql_dsn cfg) gs ds d hg ho hp)
      (then_or_not cfg.db_enabled _ _)

run_loops :
    (cfg : Config) (n : ℕ) (xs : List Accepted) (w : World)
    → cfg.heartbeat_timeout ≡ pos (suc n)
    → run cfg true xs w ≡ looped (accept_loop xs 0 w)
unfolding run prune_loop start_ticker
run_loops cfg n xs w h = ap (λ z. beside (start_ticker z []) (accept_loop xs 0 w)) h

-- The life of the process. With the conditions of `start_ready`, if the listener can be opened and
-- HEARTBEAT_TIMEOUT is positive, the server runs on an empty registry, takes every connection whatever errors come between, with a
-- wait of 50 ms for each, and exits with status 0 at the first error behind the cancellation of the
-- context; its calls before `Run` are those of the wait loops.
pub main_serves :
    (cfg : Config) (fs rs : List RedisAttempt) (r : RedisAttempt) (gs ds : List DbAttempt)
    (d : DbAttempt) (sessions : ℕ → Session) (xs ys : List Accepted) (n : ℕ)
    → cfg.heartbeat_timeout ≡ pos (suc n)
    → All RedisFails fs
    → r.ping_ok ≡ true
    → All DbFails gs
    → d.open_ok ≡ true
    → d.ping_ok ≡ true
    → GoesOn xs
    → main cfg (fs ++ r ∷ rs) (gs ++ d ∷ ds) sessions true (xs ++ accept_error true ∷ ys) ≡ record {
      status = exits 0;
      calls =
          (redis_retries fs ++ redis_ping ∷ [])
          ++ (if cfg.db_enabled
              then db_retries (my_sql_dsn cfg) gs ++ mysql_open (my_sql_dsn cfg) ∷ mysql_ping ∷ []
              else []);
      served = some (
          looped (record {
            ended = true;
            slept = 0 + 50 * errors xs;
            world = accept_all xs (new_world sessions);
          }));
    }
unfolding main after_start exit_status
main_serves cfg fs rs r gs ds d sessions xs ys n ht hf hr hg ho hp hx =
    ap (after_start cfg sessions true (xs ++ accept_error true ∷ ys))
      (start_ready cfg fs rs r gs ds d hf hr hg ho hp)
    ∙ rw
        (
          run_loops cfg n (xs ++ accept_error true ∷ ys) (new_world sessions) ht,
          accept_loop_lem xs ys 0 (new_world sessions) hx,
        )
        refl
