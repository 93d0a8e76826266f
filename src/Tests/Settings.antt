-- ===== src/Tests/Settings.antt =====
-- Runs of the settings, the start, the metrics, the listener and the stores.
use server_jt.Base.{
  length, List, ◌+◌, ◌*◌, ◌≡◌, refl, true, false, some, [], ◌∷◌, ◌++◌, arith, if◌then◌else◌,
}
use server_jt.Base.Int.{pos, negsuc}
use server_jt.Base.Text.{ascii, same}
use server_jt.Protocol.Types.{Bytes}
use server_jt.Configuration.{Config, load, my_sql_dsn, env_str}
use server_jt.Configuration.Numbers.{print_int}
use server_jt.Main.{exits, main, redis_ping, mysql_ping, mysql_open, RedisAttempt, DbAttempt}
use server_jt.Main.Ready.{redis_retries, db_retries, main_serves}
use server_jt.Server.Listen.{Accepted, looped, new_world, connection, accept_error}
use server_jt.Server.Listening.{accept_all, errors}
use server_jt.Forwarder.Json.{extras_to_json, extras_from_json, extras_from_json-extras_to_json}
use server_jt.Store.{status}
use server_jt.Store.Statements.{
  places, select_statement, insert_statement, heartbeat_statement, id_arguments, insert_arguments,
  statements_take_arguments,
}
use server_jt.Tests.Connections.{cfg, empty_world}

abbrev key : Bytes
key = ascii "STREAM_MAX_LEN"

abbrev minus_five : Bytes → Bytes
minus_five k = print_int (negsuc 4)

abbrev switched_off : Bytes → Bytes
switched_off k = if same k (ascii "DB_ENABLED") then ascii "false" else ascii "mysql"

abbrev redis_down : RedisAttempt
redis_down = record { ping_ok = false; cancelled = false }

abbrev redis_up : RedisAttempt
redis_up = record { ping_ok = true; cancelled = false }

abbrev db_down : DbAttempt
db_down = record { open_ok = true; ping_ok = false; cancelled = false }

abbrev db_up : DbAttempt
db_up = record { open_ok = true; ping_ok = true; cancelled = false }

abbrev quick : Config
quick = record cfg { heartbeat_timeout = pos 60 }

extras_from_json-extras_to_json_example :
    extras_from_json (extras_to_json ((0xeb, 100 ∷ []) ∷ (0x25, 0x0f ∷ 0xa0 ∷ []) ∷ []))
    ≡ (0xeb, 100 ∷ []) ∷ (0x25, 0x0f ∷ 0xa0 ∷ []) ∷ []
extras_from_json-extras_to_json_example =
    extras_from_json-extras_to_json ((0xeb, 100 ∷ []) ∷ (0x25, 0x0f ∷ 0xa0 ∷ []) ∷ []) (omega arith)

abbrev accepted : List Accepted
accepted =
    connection 1 (ascii "10.0.0.1:4000") 5
    ∷ accept_error false
    ∷ connection 2 (ascii "10.0.0.2:4000") 6
    ∷ []

main_serves_example :
    main quick
      (redis_down ∷ redis_up ∷ [])
      (db_down ∷ db_up ∷ [])
      empty_world.sessions
      true
      (accepted ++ accept_error true ∷ connection 3 (ascii "10.0.0.3:4000") 7 ∷ [])
    ≡ record {
      status = exits 0;
      calls =
          (redis_retries (redis_down ∷ []) ++ redis_ping ∷ [])
          ++ (if quick.db_enabled
              then db_retries (my_sql_dsn quick) (db_down ∷ [])
                ++ mysql_open (my_sql_dsn quick) ∷ mysql_ping ∷ []
              else []);
      served = some (
          looped (record {
            ended = true;
            slept = 0 + 50 * errors accepted;
            world = accept_all accepted (new_world empty_world.sessions);
          }));
    }
main_serves_example =
    main_serves quick (redis_down ∷ []) [] redis_up (db_down ∷ []) [] db_up empty_world.sessions
      accepted (connection 3 (ascii "10.0.0.3:4000") 7 ∷ []) 59 refl ((refl, refl), tt) refl
      ((refl, refl), tt) refl refl (refl, tt)

statements_take_arguments_example :
    (places (select_statement cfg) ≡ length (id_arguments (ascii "13900000001")))
    × (places (insert_statement cfg)
        ≡ length (
            insert_arguments cfg
              (ascii "13900000001")
              (ascii "P901")
              (ascii "DEV0001")
              (ascii "2024-01-15 12:34:56")))
    × (places (heartbeat_statement cfg) ≡ length (id_arguments (ascii "13900000001")))
unfolding places load env_str same
statements_take_arguments_example =
    statements_take_arguments cfg (ascii "13900000001") (ascii "P901") (ascii "DEV0001")
      (ascii "2024-01-15 12:34:56")
      (refl, (refl, (refl, (refl, (refl, (refl, (refl, (refl, tt))))))))
