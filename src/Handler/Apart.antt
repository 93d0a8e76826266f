-- ===== src/Handler/Apart.antt =====
-- What a dispatch does to the connections that it does not belong to.
use server_jt.Base.{
  ℕ, ◌≡◌, ◌≢◌, refl, ap, ◌∙◌, Bool, true, false, Option, none, some, ◌++◌, arith, inl, inr, ◌⊎◌,
  if◌then◌else◌, ℕ_discrete,
}
use server_jt.Protocol.Types.{Bytes, msg_authentication}
use server_jt.Protocol.Frame.{Frame}
use server_jt.Session.{Session, close, authenticated, set_state}
use server_jt.World.{World, token_checked, inc, frames_received, emit, go, put_session}
use server_jt.Registry.{register, evict, close_session, validate_auth_token}
use server_jt.Registry.Map.{get}
use server_jt.Configuration.{Config}
use server_jt.Actions.{Answers, ack_to, update}
use server_jt.Handler.{
  dispatch, handle_authentication, accept_login, reject_login, after_validation, msg_name,
}
use server_jt.Handler.Guard.{dispatch_authentication}
use server_jt.Handler.Keeps.{after_dispatch-Keeps}
use server_jt.Handler.Login.{adopted, handle_authentication_accepts, handle_authentication_rejects}
use server_jt.Handler.Written.{writes_of, writes_of-other}
use server_jt.Handler.Answering.{Silent}

module _ (i : ℕ) where
  evict-quiet :
      (sid : ℕ) (phone : Bytes) (o : Option ℕ) (w : World)
      → writes_of i (evict sid phone o w).trace ≡ writes_of i w.trace
  unfolding evict close_session emit put_session writes_of
  evict-quiet sid phone none w = refl
  evict-quiet sid phone (some old) w = ground arith

  pub register-quiet :
      (sid : ℕ) (w : World) → writes_of i (register sid w).trace ≡ writes_of i w.trace
  unfolding register go writes_of
  register-quiet sid w =
      let phone = (w.sessions sid).phone in evict-quiet sid phone (get phone w.local) w

  module _ (cfg : Config) (a : Answers) (sid : ℕ) (f : Frame) (other : i ≢ sid) where
    accept_login-quiet :
        (w : World) → writes_of i (accept_login cfg a sid f w).trace ≡ writes_of i w.trace
    unfolding accept_login emit go ack_to put_session update writes_of
    accept_login-quiet w =
        let w1 = update sid (set_state authenticated) w in
        writes_of-other i sid _ (register sid w1).trace other ∙ register-quiet sid w1

    reject_login-quiet :
        (w : World) → writes_of i (reject_login cfg a sid f w).trace ≡ writes_of i w.trace
    unfolding reject_login emit ack_to put_session writes_of
    reject_login-quiet w = writes_of-other i sid _ w.trace other

    validation-quiet :
        (o : Option Bool) (w : World)
        → writes_of i (after_validation cfg a sid f o w).trace ≡ writes_of i w.trace
    unfolding after_validation
    validation-quiet none w = accept_login-quiet w
    validation-quiet (some true) w = accept_login-quiet w
    validation-quiet (some false) w = reject_login-quiet w

    login-quiet :
        (w : World) → writes_of i (handle_authentication cfg a sid f w).trace ≡ writes_of i w.trace
    unfolding handle_authentication adopted emit update put_session writes_of
    login-quiet w =
        validation-quiet (validate_auth_token a.token f.body)
          (emit (token_checked (cfg.auth_token_prefix ++ f.phone) f.body) (adopted cfg a sid f w))

    -- Another session may be closed, which takes neither its phone nor its counter.
    closed-Silent :
        (b : Bool) (s t : Session)
        → t ≡ (if b then close s else s)
        → (t.phone ≡ s.phone) × (t.out_seq ≡ s.out_seq)
    unfolding close
    closed-Silent true s t h = (ap (λ (x : Session). x.phone) h, ap (λ (x : Session). x.out_seq) h)
    closed-Silent false s t h = (ap (λ (x : Session). x.phone) h, ap (λ (x : Session). x.out_seq) h)

    same-Silent : (s t : Session) → t ≡ s → (t.phone ≡ s.phone) × (t.out_seq ≡ s.out_seq)
    same-Silent s t h = (ap (λ (x : Session). x.phone) h, ap (λ (x : Session). x.out_seq) h)

    quietly :
        (v w : World)
        → writes_of i w.trace ≡ writes_of i v.trace
        → ((w.sessions i).phone ≡ (v.sessions i).phone)
          × ((w.sessions i).out_seq ≡ (v.sessions i).out_seq)
        → Silent i v w
    quietly v w h p = (h, p.0, p.1)

    apart : {A : Type 0} → (i ≡ sid) ⊎ A → A
    apart (inl p) = absurd (other p)
    apart (inr q) = q

    accepted-Silent :
        (w : World)
        → validate_auth_token a.token f.body ≢ some false
        → Silent i w (handle_authentication cfg a sid f w)
    accepted-Silent w h =
        let taken = handle_authentication_accepts cfg a sid f w h in
        quietly w (handle_authentication cfg a sid f w) (login-quiet w)
          (closed-Silent _ (w.sessions i) _ (apart (taken.3 i)))

    login-Silent :
        (w : World) (o : Option Bool)
        → validate_auth_token a.token f.body ≡ o
        → Silent i w (handle_authentication cfg a sid f w)
    login-Silent w (some false) h =
        let kept = handle_authentication_rejects cfg a sid f w h in
        quietly w (handle_authentication cfg a sid f w) (login-quiet w)
          (same-Silent (w.sessions i) _ (apart (kept.5 i)))
    login-Silent w (some true) h = accepted-Silent w (λ e. ground (arith, e, h))
    login-Silent w none h = accepted-Silent w (λ e. ground (arith, e, h))

    -- A dispatch of another connection sends this one nothing, and leaves the phone and the counter
    -- of its session.
    pub dispatch-Silent : (w : World) → Silent i w (dispatch cfg a sid f w)
    unfolding emit writes_of
    dispatch-Silent w = elim (ℕ_discrete f.msg_id msg_authentication) [
      | yes p ↦
          let w1 = emit (inc (frames_received (msg_name f.msg_id))) w in
          rw (dispatch_authentication cfg a sid f w p)
            (login-Silent w1 (validate_auth_token a.token f.body) refl)
      | no n ↦
          let kept = (after_dispatch-Keeps cfg a sid f w n).1 i other in
          quietly w (dispatch cfg a sid f w) kept.1 (same-Silent (w.sessions i) _ kept.0)
    ]
