-- ===== src/Handler/Unique.antt =====
-- A login and the entries of the registry.
use server_jt.Base.{ℕ, Bool, true, false, Option, none, some}
use server_jt.Protocol.Frame.{Frame}
use server_jt.Session.{set_state, authenticated}
use server_jt.World.{World, emit, go, put_session}
use server_jt.Registry.Entries.{Once, register-Once}
use server_jt.Configuration.{Config}
use server_jt.Actions.{Answers, ack_to, update}
use server_jt.Handler.{handle_authentication, after_validation, accept_login, reject_login}

module _ (cfg : Config) (a : Answers) (sid : ℕ) (f : Frame) where
  accept_login-Once : (w : World) → Once w.local → Once (accept_login cfg a sid f w).local
  unfolding accept_login emit go ack_to update put_session
  accept_login-Once w h = register-Once sid (update sid (set_state authenticated) w) h

  after_validation-Once :
      (o : Option Bool) (w : World) → Once w.local → Once (after_validation cfg a sid f o w).local
  unfolding after_validation reject_login emit ack_to put_session
  after_validation-Once none w h = accept_login-Once w h
  after_validation-Once (some true) w h = accept_login-Once w h
  after_validation-Once (some false) w h = h

  -- A login leaves one entry at most for each phone.
  pub handle_authentication-Once :
      (w : World) → Once w.local → Once (handle_authentication cfg a sid f w).local
  unfolding handle_authentication emit update put_session
  handle_authentication-Once w h = after_validation-Once _ _ h
