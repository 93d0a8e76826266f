-- ===== src/Handler/Books.antt =====
-- What the counters count, and the calls of the components.
use server_jt.Base.{
  ℕ, suc, ◌≤◌, ◌≡◌, ap, Bool, true, false, Option, none, some, List, [], ◌∷◌, ◌==◌, if◌then◌else◌,
  Bool-cases, inl, inr,
}
use server_jt.Protocol.Types.{Bytes}
use server_jt.Protocol.Frame.{Frame}
use server_jt.World.{
  World, Effect, inc, connections_total, connections_active, location_reports, sos_alarms,
  heartbeats, auth_successes, started, put_online, publish_location, publish_event, no_payload,
  login, put_online, emit, go, put_session,
}
use server_jt.Registry.{register, evict, close_session}
use server_jt.Registry.Map.{get}
use server_jt.Store.{Row, check_or_create, record_heartbeat, status, no_rows, lookup_failed}
use server_jt.Actions.{ack_to}

abbrev pub times : (Effect → Bool) → List Effect → ℕ
times p [] = 0
times p (x ∷ xs) = if p x then suc (times p xs) else times p xs

abbrev pub reported : Effect → Bool
reported (inc location_reports) = true
reported x = false

abbrev pub publishes : Effect → Bool
publishes (started (publish_location phone loc)) = true
publishes x = false

abbrev pub sos_counted : Effect → Bool
sos_counted (inc sos_alarms) = true
sos_counted x = false

abbrev pub beat : Effect → Bool
beat (inc heartbeats) = true
beat x = false

abbrev pub beat_event : Effect → Bool
beat_event (started (publish_event name phone no_payload)) = true
beat_event x = false

abbrev pub logged_in : Effect → Bool
logged_in (inc auth_successes) = true
logged_in x = false

abbrev pub login_event : Effect → Bool
login_event (started (publish_event name phone (login p i r t))) = true
login_event x = false

abbrev pub connected_total : Effect → Bool
connected_total (inc connections_total) = true
connected_total x = false

abbrev pub connected_active : Effect → Bool
connected_active (inc connections_active) = true
connected_active x = false

-- The counter of location reports is the number of published ones, and no more SOS alarms are
-- counted than reports; heartbeats and logins are counted as often as their events are published;
-- and both connection counters went up equally often.
abbrev pub Books : List Effect → Type 0
Books xs =
    (times reported xs ≡ times publishes xs)
    × (times sos_counted xs ≤ times reported xs)
    × (times beat xs ≡ times beat_event xs)
    × (times logged_in xs ≡ times login_event xs)
    × (times connected_total xs ≡ times connected_active xs)

pub ack_to-Books :
    (sid : ℕ) (f : Frame) (r : ℕ) (w : World) → Books w.trace → Books (ack_to sid f r w).trace
unfolding ack_to emit put_session
ack_to-Books sid f r w h = h

pub register-Books : (sid : ℕ) (w : World) → Books w.trace → Books (register sid w).trace
unfolding register evict close_session go emit put_session
register-Books sid w h = evicted (get (w.sessions sid).phone w.local)
  where
    evicted :
        (o : Option ℕ)
        → Books (started (put_online sid) ∷ (evict sid (w.sessions sid).phone o w).trace)
    evicted none = h
    evicted (some old) = elim (Bool-cases (old == sid)) [ inl e ↦ rw e h | inr e ↦ rw e h ]

-- A heartbeat is counted, and its event published.
pub beat-Books :
    (b : Bool) (p name phone : Bytes) (w : World)
    → Books w.trace
    → Books
        (go
          (publish_event name phone no_payload)
          (record_heartbeat b p (emit (inc heartbeats) w))).trace
unfolding record_heartbeat emit go
beat-Books true p name phone w (r, s, b, l, c) = (r, s, ap suc b, l, c)
beat-Books false p name phone w (r, s, b, l, c) = (r, s, ap suc b, l, c)

-- So is a login.
pub success-Books :
    (name phone p i r : Bytes) (t : ℕ) (w : World)
    → Books w.trace
    → Books (go (publish_event name phone (login p i r t)) (emit (inc auth_successes) w)).trace
unfolding emit go
success-Books name phone p i r t w (n, s, b, l, c) = (n, s, b, ap suc l, c)

pub check-Books :
    (db : Bool) (row : Row) (ok : Bool) (p m d : Bytes) (w : World)
    → Books w.trace
    → Books (check_or_create db row ok p m d w).1.trace
unfolding check_or_create emit
check-Books false row ok p m d w h = h
check-Books true (status st) ok p m d w h = h
check-Books true no_rows ok p m d w h = h
check-Books true lookup_failed ok p m d w h = h

pub Books-if :
    (b : Bool) (u v : World) → Books u.trace → Books v.trace → Books (if b then u else v).trace
Books-if true u v h k = h
Books-if false u v h k = k
