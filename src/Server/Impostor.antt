-- ===== src/Server/Impostor.antt =====
-- A peer that names somebody else's phone number.
use server_jt.Base.{
  Option, none, ℕ, ◌≡◌, ◌≢◌, sym, ap, ◌∙◌, false, some, [], ◌∷◌, ◌++◌, arith, if◌then◌else◌, ==_ne,
  ==_refl,
}
use server_jt.Base.Text.{same}
use server_jt.Protocol.Types.{Bytes}
use server_jt.Protocol.Frame.{Frame}
use server_jt.World.{put_session, World, drop_online, emit, auth_timer_stopped}
use server_jt.Registry.{validate_auth_token}
use server_jt.Registry.Keys.{same_iff}
use server_jt.Registry.Map.{get}
use server_jt.Registry.Laws.{get-unregister}
use server_jt.Registry.Redis.{online_after, run_tasks}
use server_jt.Registry.Online.{pending-unregister, phone-unregister, drop_goes_offline}
use server_jt.Configuration.{Config}
use server_jt.Actions.{Answers}
use server_jt.Handler.{handle_authentication}
use server_jt.Handler.Login.{handle_authentication_rejects}
use server_jt.Server.{close_conn, leave}

named : (own sent : Bytes) → own ≡ [] → (if same own [] then sent else own) ≡ sent
named own sent h = ground (arith, same_iff own [])

-- A fresh connection sends an authentication with the phone number of another, registered session
-- and a token that Redis refutes. When it ends, the registry still names the other session, but
-- the goroutine that was started takes the phone out of the online set.
pub rejected_login_drops_online :
    (cfg : Config) (a : Answers) (sid owner : ℕ) (f : Frame) (w : World) (prefix : Bytes)
    (nanos : ℕ) (before : Option ℕ)
    → (w.sessions sid).phone ≡ []
    → f.phone ≢ []
    → owner ≢ sid
    → get f.phone w.local ≡ some owner
    → validate_auth_token a.token f.body ≡ some false
    → let w' = leave sid (handle_authentication cfg a sid f w) in
      (get f.phone w'.local ≡ some owner)
      × (w'.pending ≡ w.pending ++ drop_online sid ∷ [])
      × (online_after f.phone (run_tasks prefix nanos w' (drop_online sid ∷ [])) before ≡ none)
unfolding leave emit close_conn put_session
rejected_login_drops_online cfg a sid owner f w prefix nanos before hs hf ho hg hv =
    let w1 = handle_authentication cfg a sid f w in
    let kept = handle_authentication_rejects cfg a sid f w hv in
    let own = kept.1 ∙ named (w.sessions sid).phone f.phone hs in
    let w2 = emit (auth_timer_stopped sid) w1 in
    (
      ground
          (arith, get-unregister sid w2 f.phone, own, ap (get f.phone) kept.2, ==_ne owner sid ho),
      pending-unregister sid w2 (λ e. hf (sym own ∙ e))
          ∙ ap (λ t. t ++ drop_online sid ∷ []) kept.3,
      drop_goes_offline sid (leave sid w1) f.phone prefix nanos before
          (rw (==_refl sid) (phone-unregister sid w2 sid ∙ own)),
    )
