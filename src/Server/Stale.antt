-- ===== src/Server/Stale.antt =====
-- A session that is registered again under another phone number.
use server_jt.Base.{ℕ, ◌≡◌, ◌≢◌, ap, ◌∙◌, false, some, arith}
use server_jt.Base.Text.{same}
use server_jt.Protocol.Types.{Bytes}
use server_jt.Protocol.Frame.{Frame}
use server_jt.Protocol.Location.{decoded}
use server_jt.Protocol.Registration.{RegistrationInfo, decode_registration}
use server_jt.World.{World, emit, put_session, auth_timer_stopped}
use server_jt.Registry.Keys.{same_ne}
use server_jt.Registry.Map.{get}
use server_jt.Registry.Laws.{get-unregister}
use server_jt.Configuration.{Config}
use server_jt.Actions.{Answers}
use server_jt.Handler.{handle_registration}
use server_jt.Handler.Registering.{refuses, handle_registration_accepts, handle_registration-local}
use server_jt.Server.{close_conn, leave}

-- A session that is the registry's entry for a phone sends a registration with another phone
-- number, which is accepted, and ends. Its connection is closed, and the registry still names it
-- for the first phone.
pub renamed_session_stays :
    (cfg : Config) (a : Answers) (sid : ℕ) (f : Frame) (info : RegistrationInfo) (w : World)
    (phone : Bytes)
    → get phone w.local ≡ some sid
    → f.phone ≢ phone
    → decode_registration f.body ≡ decoded info
    → refuses cfg.db_enabled a.row a.insert_ok ≡ false
    → let w' = leave sid (handle_registration cfg a sid f w) in
      (get phone w'.local ≡ some sid) × ((w'.sessions sid).conn_open ≡ false)
unfolding leave emit close_conn put_session
renamed_session_stays cfg a sid f info w phone hg hp hd hr =
    let w1 = handle_registration cfg a sid f w in
    let renamed = (handle_registration_accepts cfg a sid f info w hd hr).1 in
    let other = ap (λ p. same p phone) renamed ∙ same_ne f.phone phone hp in
    let kept = ap (get phone) (handle_registration-local cfg a sid f info w hd hr) ∙ hg in
    (
      ground (arith, get-unregister sid (emit (auth_timer_stopped sid) w1) phone, other, kept),
      ground arith,
    )
