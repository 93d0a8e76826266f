-- ===== src/Handler/Login.antt =====
-- Registration and authentication.
use server_jt.Base.{
  [], ◌∷◌, except, ◌⊎◌, ℕ, ◌≡◌, ◌≢◌, refl, ap, ◌∙◌, Bool, true, false, Option, none, some, ◌++◌,
  arith, if◌then◌else◌, ==_ne, ==_refl,
}
use server_jt.Base.Text.{same}
use server_jt.Protocol.Types.{Bytes, result_ok, result_fail}
use server_jt.Protocol.Frame.{Frame}
use server_jt.Handler.Written.{newest}
use server_jt.Session.{Session, authenticated, set_state, close, ack, send}
use server_jt.World.{
  close_after, inc, auth_violations, wrote, World, token_checked, emit, go, put_session,
}
use server_jt.Registry.{register, validate_auth_token}
use server_jt.Registry.Map.{get}
use server_jt.Registry.Laws.{register-sessions, get-register, is_other}
use server_jt.Configuration.{Config}
use server_jt.Actions.{Answers, ack_to, update}
use server_jt.Handler.{
  handle_authentication, accept_login, reject_login, after_validation, adopt_phone,
}

own-not-other : (sid : ℕ) (o : Option ℕ) → is_other sid sid o ≡ false
own-not-other sid none = refl
own-not-other sid (some old) = ground arith

module _ (cfg : Config) (a : Answers) (sid : ℕ) (f : Frame) (v : World) where
  -- The session just before it is registered.
  unfoldable pub promoted : World
  promoted = update sid (set_state authenticated) v

  own-promoted : promoted.sessions sid ≡ set_state authenticated (v.sessions sid)
  unfolding promoted update put_session
  own-promoted = rw (==_refl sid)

  others-promoted : (i : ℕ) → i ≢ sid → promoted.sessions i ≡ v.sessions i
  unfolding promoted update put_session
  others-promoted i h = rw (==_ne i sid h)

  phone-promoted : (promoted.sessions sid).phone ≡ (v.sessions sid).phone
  unfolding set_state
  phone-promoted = ap (λ s. s.phone) own-promoted

  pub own-registered :
      (register sid promoted).sessions sid ≡ set_state authenticated (v.sessions sid)
  own-registered =
      register-sessions sid promoted sid
      ∙ rw (own-not-other sid (get (promoted.sessions sid).phone promoted.local)) own-promoted

  pub accepted-by :
      (o : Option Bool)
      → o ≢ some false
      → after_validation cfg a sid f o v ≡ accept_login cfg a sid f v
  unfolding after_validation
  accepted-by none h = refl
  accepted-by (some true) h = refl
  accepted-by (some false) h = absurd (h refl)

  accept_login-own :
      (((accept_login cfg a sid f v).sessions sid).state ≡ authenticated)
      × (((accept_login cfg a sid f v).sessions sid).phone ≡ (v.sessions sid).phone)
  unfolding accept_login emit go ack_to put_session update ack send promoted set_state
  accept_login-own = (ground (arith, own-registered), ground (arith, own-registered))

  accept_login-local :
      (j : Bytes)
      → get j (accept_login cfg a sid f v).local
        ≡ (if same (v.sessions sid).phone j then some sid else get j v.local)
  unfolding accept_login emit go ack_to put_session update promoted
  accept_login-local j =
      get-register sid promoted j
      ∙ ap (λ p. if same p j then some sid else get j v.local) phone-promoted

  accept_login-others :
      (i : ℕ)
      → i ≢ sid
      → (accept_login cfg a sid f v).sessions i ≡ (
          if is_other sid i (get (v.sessions sid).phone v.local)
          then close (v.sessions i)
          else v.sessions i)
  unfolding accept_login emit go ack_to put_session update promoted
  accept_login-others i h = rw (==_ne i sid h) (
      register-sessions sid promoted i
      ∙ ap
          (λ p.
            if is_other sid i (get p v.local)
            then close (promoted.sessions i)
            else promoted.sessions i)
          phone-promoted
      ∙ ap (λ s. if is_other sid i (get (v.sessions sid).phone v.local) then close s else s)
          (others-promoted i h))

  accept_login-newest :
      newest sid (accept_login cfg a sid f v).trace
      ≡ (ack f result_ok ((register sid promoted).sessions sid)).1
  unfolding accept_login emit go ack_to put_session update promoted newest
  accept_login-newest = rw (==_refl sid) refl

module _ (cfg : Config) (a : Answers) (sid : ℕ) (f : Frame) (w : World) where
  -- The phone number under which the session logs in: its own, or the frame's if it has none.
  abbrev pub login_phone : Bytes
  login_phone = if same (w.sessions sid).phone [] then f.phone else (w.sessions sid).phone

  -- The world in which the session has taken the phone number.
  unfoldable pub adopted : World
  adopted = update sid (adopt_phone cfg a sid f) w

  pub own-adopted : (adopted.sessions sid).phone ≡ login_phone
  unfolding adopted update put_session adopt_phone
  own-adopted = ground arith

  others-adopted : (i : ℕ) → i ≢ sid → adopted.sessions i ≡ w.sessions i
  unfolding adopted update put_session
  others-adopted i h = rw (==_ne i sid h)

  -- With a valid token, or none that Redis could be asked for, the session becomes authenticated
  -- and is the registry's entry for its phone; another session under that phone is closed, and
  -- neither the other phones' entries nor the other sessions change.
  pub handle_authentication_accepts :
      validate_auth_token a.token f.body ≢ some false
      → let w' = handle_authentication cfg a sid f w in
        ((w'.sessions sid).state ≡ authenticated)
        × ((w'.sessions sid).phone ≡ login_phone)
        × ((j : Bytes) → get j w'.local ≡ (if same login_phone j then some sid else get j w.local))
        × ((i : ℕ)
            → (i ≡ sid)
              ⊎ (w'.sessions i ≡ (
                  if is_other sid i (get login_phone w.local)
                  then close (w.sessions i)
                  else w.sessions i)))
  unfolding handle_authentication adopted emit update put_session
  handle_authentication_accepts h =
      let v = emit (token_checked (cfg.auth_token_prefix ++ f.phone) f.body) adopted in
      rw (accepted-by cfg a sid f v (validate_auth_token a.token f.body) h) (
        (accept_login-own cfg a sid f v).0,
        (accept_login-own cfg a sid f v).1 ∙ own-adopted,
        λ j.
            accept_login-local cfg a sid f v j
            ∙ ap (λ p. if same p j then some sid else get j w.local) own-adopted,
        except sid λ i hi.
            accept_login-others cfg a sid f v i hi
            ∙ ap
                (λ p. if is_other sid i (get p w.local) then close (v.sessions i) else v.sessions i)
                own-adopted
            ∙ ap (λ s. if is_other sid i (get login_phone w.local) then close s else s)
                (others-adopted i hi),
      )

  -- With a token that Redis refutes the session keeps its state, but it may have taken the frame's
  -- phone number; the registry and the other sessions are untouched, no goroutine is started, and
  -- the connection is to be closed in 500 ms behind a failure reply and a counted violation.
  pub handle_authentication_rejects :
      validate_auth_token a.token f.body ≡ some false
      → let w' = handle_authentication cfg a sid f w in
        ((w'.sessions sid).state ≡ (w.sessions sid).state)
        × ((w'.sessions sid).phone ≡ login_phone)
        × (w'.local ≡ w.local)
        × (w'.pending ≡ w.pending)
        × (w'.trace
            ≡ close_after 500 sid
              ∷ inc auth_violations
              ∷ wrote sid (ack f result_fail (adopted.sessions sid)).1
              ∷ token_checked (cfg.auth_token_prefix ++ f.phone) f.body
              ∷ w.trace)
        × ((i : ℕ) → (i ≡ sid) ⊎ (w'.sessions i ≡ w.sessions i))
  unfolding handle_authentication after_validation reject_login ack_to emit put_session update ack
      send adopt_phone adopted
  handle_authentication_rejects h = (
    ground arith,
    ground arith,
    ground arith,
    ground arith,
    ground arith,
    except sid λ i hi. ground arith,
  )

  -- The reply to an accepted login acknowledges it under the phone of the session.
  pub handle_authentication-newest :
      validate_auth_token a.token f.body ≢ some false
      → (s : Session) × (s.phone ≡ login_phone)
        × (newest sid (handle_authentication cfg a sid f w).trace ≡ (ack f result_ok s).1)
  unfolding handle_authentication adopted emit update put_session set_state
  handle_authentication-newest h =
      let v = emit (token_checked (cfg.auth_token_prefix ++ f.phone) f.body) adopted in
      let w1 = register sid (promoted cfg a sid f v) in
      (
        w1.sessions sid,
        ap (λ (s : Session). s.phone) (own-registered cfg a sid f v) ∙ own-adopted,
        ap (λ (u : World). newest sid u.trace)
              (accepted-by cfg a sid f v (validate_auth_token a.token f.body) h)
            ∙ accept_login-newest cfg a sid f v,
      )
