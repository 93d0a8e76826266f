-- ===== src/Registry/Online.antt =====
-- The set of online phones when sessions of one phone follow each other.
use server_jt.Base.{
  ℕ, ◌≡◌, ◌≢◌, refl, sym, ap, ◌∙◌, Option, none, some, [], ◌∷◌, ◌++◌, arith, append_assoc,
}
use server_jt.Protocol.Types.{Bytes}
use server_jt.Session.{close}
use server_jt.World.{World, put_online, drop_online, go, emit, put_session}
use server_jt.Registry.Redis.{online_after, run_tasks, commands}
use server_jt.Registry.Keys.{same_iff, same_refl, same_ne}
use server_jt.Registry.Map.{get}
use server_jt.Registry.{register, unregister, evict, close_session}
use server_jt.Registry.Laws.{get-register, get-unregister, register-sessions}

phone-register :
    (sid : ℕ) (w : World) (i : ℕ) → ((register sid w).sessions i).phone ≡ (w.sessions i).phone
unfolding close
phone-register sid w i = ground (arith, register-sessions sid w i)

pub phone-unregister :
    (sid : ℕ) (w : World) (i : ℕ) → ((unregister sid w).sessions i).phone ≡ (w.sessions i).phone
unfolding unregister go
phone-unregister sid w i = ground arith

pending-evict :
    (sid : ℕ) (phone : Bytes) (o : Option ℕ) (w : World) → (evict sid phone o w).pending ≡ w.pending
unfolding evict close_session emit put_session
pending-evict sid phone none w = refl
pending-evict sid phone (some old) w = ground arith

pending-register :
    (sid : ℕ) (w : World) → (register sid w).pending ≡ w.pending ++ put_online sid ∷ []
unfolding register go
pending-register sid w =
    ground (arith, pending-evict sid (w.sessions sid).phone (get (w.sessions sid).phone w.local) w)

pub pending-unregister :
    (sid : ℕ) (w : World)
    → (w.sessions sid).phone ≢ []
    → (unregister sid w).pending ≡ w.pending ++ drop_online sid ∷ []
unfolding unregister go
pending-unregister sid w h = rw (same_ne (w.sessions sid).phone [] h)

-- Putting one session online and then dropping another one of the same phone.
put_drop :
    (old new : ℕ) (w : World) (p prefix : Bytes) (nanos : ℕ) (before : Option ℕ)
    → (w.sessions old).phone ≡ p
    → (w.sessions new).phone ≡ p
    → online_after p (run_tasks prefix nanos w (put_online new ∷ drop_online old ∷ [])) before
      ≡ none
unfolding online_after run_tasks commands
put_drop old new w p prefix nanos before ho hn = ground (arith, same_iff (w.sessions old).phone p)

-- Dropping a session takes its phone out of the set.
pub drop_goes_offline :
    (sid : ℕ) (w : World) (p prefix : Bytes) (nanos : ℕ) (before : Option ℕ)
    → (w.sessions sid).phone ≡ p
    → online_after p (run_tasks prefix nanos w (drop_online sid ∷ [])) before ≡ none
unfolding online_after run_tasks commands
drop_goes_offline sid w p prefix nanos before h = ground (arith, same_iff (w.sessions sid).phone p)

-- A device reconnects: the new session registers while the old one is still in the map, and then
-- the old connection's goroutine unregisters. The map keeps the new session, but the goroutines,
-- run in the order in which they were started, leave the phone offline in Redis.
pub reconnect_goes_offline :
    (old new : ℕ) (w : World) (prefix : Bytes) (nanos : ℕ) (before : Option ℕ)
    → old ≢ new
    → (w.sessions old).phone ≡ (w.sessions new).phone
    → (w.sessions new).phone ≢ []
    → get (w.sessions new).phone w.local ≡ some old
    → let w' = unregister old (register new w) in
      (get (w.sessions new).phone w'.local ≡ some new)
      × (w'.pending ≡ w.pending ++ put_online new ∷ drop_online old ∷ [])
      × (online_after
            (w.sessions new).phone
            (run_tasks prefix nanos w' (put_online new ∷ drop_online old ∷ []))
            before
          ≡ none)
reconnect_goes_offline old new w prefix nanos before hne hp hn hg =
    let same_phone = phone-register new w old ∙ hp in
    (
      ground (
        arith,
        get-unregister old (register new w) (w.sessions new).phone,
        get-register new w (w.sessions new).phone,
        same_refl (w.sessions new).phone,
        same_phone,
      ),
      pending-unregister old (register new w) (λ e. hn (sym same_phone ∙ e))
          ∙ ap (λ t. t ++ drop_online old ∷ []) (pending-register new w)
          ∙ append_assoc w.pending (put_online new ∷ []) (drop_online old ∷ []),
      put_drop old new _ (w.sessions new).phone prefix nanos before
          (phone-unregister old (register new w) old ∙ same_phone)
          (phone-unregister old (register new w) new ∙ phone-register new w new),
    )
