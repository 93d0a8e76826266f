-- ===== src/Handler/Registering.antt =====
-- The handler of registrations, and the login that follows it.
use server_jt.Base.{
  ℕ, ◌≡◌, ◌≢◌, refl, ap, ◌∙◌, Bool, true, false, not, some, List, [], ◌∷◌, ◌++◌, arith,
  if◌then◌else◌, ==_refl,
}
use server_jt.Base.Text.{ascii, same}
use server_jt.Protocol.Types.{Bytes, msg_registration_resp, reg_success, reg_terminal_not_in_db}
use server_jt.Protocol.Frame.{Frame, build_registration_ack}
use server_jt.Protocol.Location.{decoded}
use server_jt.Protocol.Registration.{RegistrationInfo, decode_registration}
use server_jt.Handler.Written.{newest}
use server_jt.Session.{Session, registered, authenticated, send, set_state}
use server_jt.World.{World, Effect, token_set, close_after, wrote, emit, go, put_session}
use server_jt.Registry.{TokenReply, found, missing, store_auth_token, validate_auth_token}
use server_jt.Registry.Map.{get}
use server_jt.Registry.Keys.{same_refl}
use server_jt.Store.{Row, check_or_create, status, no_rows, lookup_failed}
use server_jt.Configuration.{Config}
use server_jt.Actions.{Answers, update, reply_to}
use server_jt.Protocol.Registration.{generate_auth_token}
use server_jt.Handler.{
  handle_registration, decoded_registration, after_check, accept_registration, reject_registration,
  handle_authentication,
}
use server_jt.Handler.Login.{handle_authentication_accepts}

-- Whether MySQL's answers turn a device away.
abbrev pub refuses : Bool → Row → Bool → Bool
refuses false row insert_ok = false
refuses true (status st) insert_ok = same st (ascii "blocked")
refuses true no_rows insert_ok = not insert_ok
refuses true lookup_failed insert_ok = true

-- What `GET` answers while no key expires: the value of the last `SET`.
pub stored : Bytes → List Effect → TokenReply
stored k [] = missing
stored k (token_set j v ∷ xs) = if same j k then found v else stored k xs
stored k (x ∷ xs) = stored k xs

pub not_refuted :
    (reply : TokenReply) (body token : Bytes)
    → reply ≡ found token
    → body ≡ token
    → validate_auth_token reply body ≢ some false
unfolding validate_auth_token
not_refuted reply body token hr hb = rw (hr, hb, same_refl token) (ground arith)

pub one_phone :
    (own sent phone : Bytes)
    → own ≡ phone
    → sent ≡ phone
    → (if same own [] then sent else own) ≡ phone
one_phone own sent phone ho hs = ground arith

module _ (cfg : Config) (a : Answers) (sid : ℕ) (f : Frame) (info : RegistrationInfo) where
  -- The world behind the check.
  unfoldable pub checked : World → World
  checked w =
      (check_or_create cfg.db_enabled a.row a.insert_ok f.phone info.device_model info.device_id
        w).1

  choose :
      (db : Bool) (row : Row) (ok : Bool) (w : World)
      → let p = check_or_create db row ok f.phone info.device_model info.device_id w in
        after_check cfg a sid f info p ≡ (
          if refuses db row ok
          then reject_registration cfg a sid f p.1
          else accept_registration cfg a sid f info p.1)
  unfolding check_or_create after_check
  choose false row ok w = refl
  choose true (status st) ok w = ground arith
  choose true no_rows true w = refl
  choose true no_rows false w = refl
  choose true lookup_failed ok w = refl

  pub registered_by :
      (w : World)
      → decode_registration f.body ≡ decoded info
      → handle_registration cfg a sid f w ≡ (
          if refuses cfg.db_enabled a.row a.insert_ok
          then reject_registration cfg a sid f (checked w)
          else accept_registration cfg a sid f info (checked w))
  unfolding handle_registration decoded_registration checked
  registered_by w h =
      ap (λ d. decoded_registration cfg a sid f d w) h ∙ choose cfg.db_enabled a.row a.insert_ok w

  checked-state :
      (db : Bool) (row : Row) (ok : Bool) (w : World)
      → let v = (check_or_create db row ok f.phone info.device_model info.device_id w).1 in
        (v.sessions ≡ w.sessions) × (v.local ≡ w.local) × (v.pending ≡ w.pending)
  unfolding check_or_create emit
  checked-state false row ok w = (refl, refl, refl)
  checked-state true (status st) ok w = (refl, refl, refl)
  checked-state true no_rows ok w = (refl, refl, refl)
  checked-state true lookup_failed ok w = (refl, refl, refl)

  module _ (w : World) (hd : decode_registration f.body ≡ decoded info) where
    -- A device that the database does not turn away becomes registered under the frame's phone, its
    -- token is stored under that phone before it is sent, and the reply carries the token.
    pub handle_registration_accepts :
        refuses cfg.db_enabled a.row a.insert_ok ≡ false
        → let w' = handle_registration cfg a sid f w in
          let token = generate_auth_token f.phone a.unix in
          ((w'.sessions sid).state ≡ registered)
          × ((w'.sessions sid).phone ≡ f.phone)
          × ((w'.sessions sid).imei ≡ info.device_id)
          × ((w'.sessions sid).auth_token ≡ token)
          × (stored (cfg.auth_token_prefix ++ f.phone) w'.trace ≡ found token)
    unfolding accept_registration update put_session set_state store_auth_token emit reply_to send
        go stored
    handle_registration_accepts hr =
        rw (registered_by w hd, hr)
          (
            ground arith,
            ground arith,
            ground arith,
            ground arith,
            ground (arith, same_refl (cfg.auth_token_prefix ++ f.phone)),
          )

    pub handle_registration-local :
        refuses cfg.db_enabled a.row a.insert_ok ≡ false
        → (handle_registration cfg a sid f w).local ≡ w.local
    unfolding accept_registration update put_session store_auth_token emit reply_to go checked
    handle_registration-local hr =
        rw (registered_by w hd, hr) (checked-state cfg.db_enabled a.row a.insert_ok w).1

    -- The reply carries the token, under the frame's phone.
    pub handle_registration-newest :
        refuses cfg.db_enabled a.row a.insert_ok ≡ false
        → let token = generate_auth_token f.phone a.unix in
          (s : Session) × (s.phone ≡ f.phone)
          × (newest sid (handle_registration cfg a sid f w).trace
              ≡ (send msg_registration_resp
                  (build_registration_ack f.seq_num reg_success token)
                  s).1)
    unfolding accept_registration update put_session set_state store_auth_token emit reply_to go
        newest
    handle_registration-newest hr =
        let s = (checked w).sessions sid in
        let token = generate_auth_token f.phone a.unix in
        (
          record s {
            phone = f.phone;
            imei = info.device_id;
            state = registered;
            auth_token = token;
          },
          refl,
          rw (registered_by w hd, hr) (rw (==_refl sid) refl),
        )

    -- A device that the database turns away, or that could not be asked about or inserted, changes
    -- neither the registry nor the pending goroutines nor the session but for its counter, and its
    -- connection is to be closed in 200 ms.
    pub handle_registration_rejects :
        refuses cfg.db_enabled a.row a.insert_ok ≡ true
        → let w' = handle_registration cfg a sid f w in
          let body = build_registration_ack f.seq_num reg_terminal_not_in_db [] in
          (w'.sessions sid ≡ (send msg_registration_resp body (w.sessions sid)).0)
          × (w'.local ≡ w.local)
          × (w'.pending ≡ w.pending)
          × (w'.trace
              ≡ close_after 200 sid
                ∷ wrote sid (send msg_registration_resp body (w.sessions sid)).1
                ∷ (checked w).trace)
    unfolding reject_registration put_session emit reply_to checked
    handle_registration_rejects hr =
        let same_state = checked-state cfg.db_enabled a.row a.insert_ok w in
        rw (registered_by w hd, hr)
          (
            ground (arith, ap (λ s. s sid) same_state.0),
            same_state.1,
            same_state.2,
            ground (arith, ap (λ s. s sid) same_state.0),
          )

    -- A device that registers and then authenticates with the token that it was sent, Redis having
    -- kept it, is authenticated and is the registry's entry for its phone.
    pub login_after_registration :
        (b : Answers) (g : Frame)
        → refuses cfg.db_enabled a.row a.insert_ok ≡ false
        → g.phone ≡ f.phone
        → g.body ≡ ((handle_registration cfg a sid f w).sessions sid).auth_token
        → b.token
          ≡ stored (cfg.auth_token_prefix ++ g.phone) (handle_registration cfg a sid f w).trace
        → let w2 = handle_authentication cfg b sid g (handle_registration cfg a sid f w) in
          ((w2.sessions sid).state ≡ authenticated) × (get f.phone w2.local ≡ some sid)
    login_after_registration b g hr hp hb ht =
        let w1 = handle_registration cfg a sid f w in
        let done = handle_registration_accepts hr in
        let reply = ht ∙ ap (λ p. stored (cfg.auth_token_prefix ++ p) w1.trace) hp ∙ done.4 in
        let accepted =
          handle_authentication_accepts cfg b sid g w1
            (not_refuted b.token g.body _ reply (hb ∙ done.3)) in
        let own = one_phone (w1.sessions sid).phone g.phone f.phone done.1 hp in
        (accepted.0, accepted.2 f.phone ∙ ground (arith, own, same_refl f.phone))
