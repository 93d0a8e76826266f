-- ===== src/Registry.antt =====
-- server/internal/session/registry.go: the local map of connections, and the Redis calls.
pub mod Keys
pub mod Map
pub mod Laws
pub mod Score
pub mod Redis
pub mod Prune
pub mod Online
pub mod Entries
use server_jt.Base.{
  ℕ, Bool, true, false, Option, none, some, List, [], ◌∷◌, ◌++◌, ◌==◌, if◌then◌else◌,
}
use server_jt.Base.Text.{same}
use server_jt.Protocol.Types.{Bytes}
use server_jt.Session.{Session, close, touch}
use server_jt.World.{
  World, Task, Effect, emit, go, put_session, put_online, refresh_online, drop_online, conn_closed,
  token_set, token_checked,
}
use Map.{Local, get, insert, delete}

-- `s.Close` on the session `sid`.
unfoldable pub close_session : ℕ → World → World
close_session sid w = emit (conn_closed sid) (put_session sid (close (w.sessions sid)) w)

-- The registered session of a phone, if it is another one, is closed and taken out.
unfoldable pub evict : ℕ → Bytes → Option ℕ → World → World
evict sid phone none w = w
evict sid phone (some old) w =
    if old == sid then w else record (close_session old w) { local = delete phone w.local }

unfoldable pub register : ℕ → World → World
unfolding evict close_session
register sid w =
    let phone = (w.sessions sid).phone in
    let w1 = evict sid phone (get phone w.local) w in
    go (put_online sid) (record w1 { local = insert phone sid w1.local })

delete_if_own : ℕ → Bytes → Option ℕ → List (Bytes × ℕ) → List (Bytes × ℕ)
delete_if_own sid phone none m = m
delete_if_own sid phone (some j) m = if j == sid then delete phone m else m

unfoldable pub unregister : ℕ → World → World
unfolding delete_if_own
unregister sid w =
    let phone = (w.sessions sid).phone in
    if same phone []
    then w
    else go (drop_online sid)
        (record w { local = delete_if_own sid phone (get phone w.local) w.local })

unfoldable pub heartbeat : ℕ → ℕ → World → World
heartbeat sid now w = go (refresh_online sid) (put_session sid (touch now (w.sessions sid)) w)

-- The keys of the tokens: `authTokenPrefix` and the phone number.
unfoldable pub store_auth_token : Bytes → Bytes → Bytes → World → World
store_auth_token prefix phone token w = emit (token_set (prefix ++ phone) token) w

-- Redis' answer to `GET`.
pub data TokenReply : Type 0 where
  found : Bytes → TokenReply
  missing unavailable : TokenReply

-- `(bool, error)`: `none` is the error.
unfoldable pub validate_auth_token : TokenReply → Bytes → Option Bool
validate_auth_token (found stored) token = some (same stored token)
validate_auth_token missing token = some false
validate_auth_token unavailable token = none
