-- ===== src/Server/Listen.antt =====
-- server/internal/server/tcp.go: the accept loop of `Run`, `pruneLoop` and the HTTP endpoints. What
-- `AcceptTCP` returns and when the ticker fires are arguments; TCP keep-alive is left out.
use server_jt.Base.{
  ℕ, zero, suc, ◌+◌, ◌*◌, ◌-◌, ◌^◌, leb, Bool, true, false, Option, none, some, List, [], ◌∷◌, ◌++◌,
  if◌then◌else◌,
}
use server_jt.Base.Int.{ℤ, pos, negsuc}
use server_jt.Base.Text.{ascii, same}
use server_jt.Protocol.Types.{Bytes}
use server_jt.Session.{Session}
use server_jt.World.{World}
use server_jt.Registry.Score.{to_score}
use server_jt.Registry.Redis.{Command, zrem_up_to, prune_stale}
use server_jt.Configuration.{Config}
use server_jt.Server.{accept}

-- What `AcceptTCP` returns: a connection, with its pointer, its address and the time; or an error,
-- and whether the context is cancelled by then.
pub data Accepted : Type 0 where
  connection : ℕ → Bytes → ℕ → Accepted
  accept_error : Bool → Accepted

-- The state of the loop: whether it has ended, and the milliseconds that it has slept.
pub record Loop : Type 0 where
  pub ended : Bool
  pub slept : ℕ
  pub world : World

unfoldable pub accept_loop : List Accepted → ℕ → World → Loop
accept_loop [] slept w = record { ended = false; slept = slept; world = w }
accept_loop (connection sid addr now ∷ xs) slept w = accept_loop xs slept (accept sid addr now w)
accept_loop (accept_error true ∷ xs) slept w = record { ended = true; slept = slept; world = w }
accept_loop (accept_error false ∷ xs) slept w = accept_loop xs (slept + 50) w

-- What `main` hands to `Run`: `NewRegistry` is empty, and nothing is started yet.
unfoldable pub new_world : (ℕ → Session) → World
new_world sessions = record { sessions = sessions; local = []; pending = []; trace = [] }

-- What the `select` of `pruneLoop` takes: the ticker at a time, or the end of the context.
pub data Tick : Type 0 where
  ticks : ℕ → Tick
  done : Tick

-- `PruneStale` at `nanos` for the product `HeartbeatTimeout*2`, which wraps at 64 bits, as does the
-- difference of the times: a cutoff below the range of an `int64` is one in the future.
unfoldable pub prune_twice : ℕ → ℕ → Command
prune_twice nanos twice =
    if leb twice (nanos + 2 ^ 63)
    then prune_stale nanos twice
    else zrem_up_to (to_score (pos (nanos + 2 ^ 64 - twice)))

unfoldable pub prunes : ℕ → List Tick → List Command
prunes twice [] = []
prunes twice (ticks nanos ∷ ts) = prune_twice nanos twice ∷ prunes twice ts
prunes twice (done ∷ ts) = []

-- `none` is the panic of `NewTicker` on an interval that is not positive.
unfoldable pub start_ticker : ℤ → List Tick → Option (List Command)
unfolding prunes
start_ticker (pos zero) ts = none
start_ticker (pos (suc n)) ts = some (prunes (suc n * 2) ts)
start_ticker (negsuc n) ts = none

unfoldable pub prune_loop : Config → List Tick → Option (List Command)
unfolding start_ticker
prune_loop cfg ts = start_ticker cfg.heartbeat_timeout ts

-- What `Run` has come to. A panic of `pruneLoop` ends the process.
pub data Served : Type 0 where
  listen_failed panicked : Served
  looped : Loop → Served

unfoldable pub beside : Option (List Command) → Loop → Served
beside none l = panicked
beside (some cs) l = looped l

-- Whether `Listen` succeeds, and what the accept loop gets. `pruneLoop` runs beside it; the other
-- goroutines are the HTTP server, and one that closes the listener when the context ends, which
-- `AcceptTCP` reports.
unfoldable pub run : Config → Bool → List Accepted → World → Served
unfolding beside prune_loop
run cfg false xs w = listen_failed
run cfg true xs w = beside (prune_loop cfg []) (accept_loop xs 0 w)

-- An answer of the HTTP server; the type is empty where the handler sets none.
pub record Response : Type 0 where
  pub code : ℕ
  pub content_type : Bytes
  pub body : Bytes

not_found : Response
not_found = record {
  code = 404;
  content_type = ascii "text/plain; charset=utf-8";
  body = ascii "404 page not found\n";
}

text : Bytes → Response
text b = record { code = 200; content_type = []; body = b }

index : Bytes
index =
    ascii "{\"service\":\"jt808-server\",\"tcp_port\":7018,\"status\":\"ok\","
    ++ ascii "\"endpoints\":[\"/healthz\",\"/readyz\",\"/metrics\"]}"

-- The handler of the mux for a clean path. `scrape` is what `promhttp.Handler` answers.
unfoldable pub respond : Response → Bytes → Response
unfolding not_found text index
respond scrape path =
    if same path (ascii "/metrics")
    then scrape
    else if same path (ascii "/healthz")
    then text (ascii "ok")
    else if same path (ascii "/readyz")
    then text (ascii "ready")
    else if same path (ascii "/")
    then record { code = 200; content_type = ascii "application/json"; body = index }
    else not_found
