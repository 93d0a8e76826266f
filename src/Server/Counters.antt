-- ===== src/Server/Counters.antt =====
-- The counters in every reachable world.
use server_jt.Base.{ℕ, ◌≤◌, ◌≡◌, refl, ap, suc, [], arith, ltb}
use server_jt.Base.Text.{same}
use server_jt.Protocol.Types.{Bytes}
use server_jt.Session.{rank, authenticated}
use server_jt.World.{World, go, emit, put_session, auth_timer_stopped}
use server_jt.Registry.{close_session, unregister}
use server_jt.Configuration.{Config}
use server_jt.Handler.Books.{
  Books, Books-if, times, reported, publishes, sos_counted, beat, beat_event, logged_in,
  login_event, connected_total, connected_active,
}
use server_jt.Handler.Counted.{dispatch-Books}
use server_jt.Server.{close_conn, accept, auth_timeout, leave}
use server_jt.Server.Steps.{
  Step, accepts, dispatches, leaves, auth_times_out, timer_closes, Reachable, starts, steps,
}

unregister-Books : (sid : ℕ) (w : World) → Books w.trace → Books (unregister sid w).trace
unfolding unregister go
unregister-Books sid w h = Books-if (same (w.sessions sid).phone []) w _ h h

leave-Books : (sid : ℕ) (w : World) → Books w.trace → Books (leave sid w).trace
unfolding leave emit close_conn put_session
leave-Books sid w h = unregister-Books sid (emit (auth_timer_stopped sid) w) h

accept-Books :
    (sid : ℕ) (addr : Bytes) (now : ℕ) (w : World)
    → Books w.trace
    → Books (accept sid addr now w).trace
unfolding accept emit put_session
accept-Books sid addr now w (r, s, b, l, c) = (r, s, b, l, ap suc c)

close_session-Books : (sid : ℕ) (w : World) → Books w.trace → Books (close_session sid w).trace
unfolding close_session emit put_session
close_session-Books sid w h = h

auth_timeout-Books : (sid : ℕ) (w : World) → Books w.trace → Books (auth_timeout sid w).trace
unfolding auth_timeout
auth_timeout-Books sid w h =
    Books-if (ltb (rank (w.sessions sid).state) (rank authenticated)) _ w
      (close_session-Books sid w h) h

Step-Books : (cfg : Config) (v w : World) → Step cfg v w → Books v.trace → Books w.trace
Step-Books cfg _ _ (accepts sid addr now w fresh) h = accept-Books sid addr now w h
Step-Books cfg _ _ (dispatches a sid f w) h = dispatch-Books cfg a sid f w h
Step-Books cfg _ _ (leaves sid w) h = leave-Books sid w h
Step-Books cfg _ _ (auth_times_out sid w) h = auth_timeout-Books sid w h
Step-Books cfg _ _ (timer_closes sid w) h = close_session-Books sid w h

-- Whatever the order of the calls and whatever the peers send: `jt808_location_reports_total` went
-- up once for each report whose publication was started, and no more SOS alarms were counted than
-- reports; heartbeats and logins were counted once for each of their events; and each accepted
-- connection raised both connection metrics.
pub counters_balance :
    (cfg : Config) (w : World)
    → Reachable cfg w
    → (times reported w.trace ≡ times publishes w.trace)
      × (times sos_counted w.trace ≤ times reported w.trace)
      × (times beat w.trace ≡ times beat_event w.trace)
      × (times logged_in w.trace ≡ times login_event w.trace)
      × (times connected_total w.trace ≡ times connected_active w.trace)
counters_balance cfg _ (starts sessions) = (refl, omega arith, refl, refl, refl)
counters_balance cfg _ (steps v w r st) = Step-Books cfg v w st (counters_balance cfg v r)
