-- ===== src/Server/Invariant.antt =====
-- What holds of the registry after every step.
use server_jt.Base.{
  ℕ, ◌≡◌, ◌≢◌, ◌⊎◌, inl, inr, refl, sym, ap, ◌∙◌, Bool, true, false, Option, none, some, [], arith,
  if◌then◌else◌, ℕ_discrete, Bool-cases, ==_ne, ==_refl, none,
}
use server_jt.Base.Text.{same}
use server_jt.Protocol.Types.{Bytes, msg_authentication}
use server_jt.Protocol.Frame.{Frame}
use server_jt.Session.{Session, connected, close}
use server_jt.World.{World, auth_timer_stopped, go, emit, put_session, inc, frames_received}
use server_jt.Registry.{close_session, unregister, validate_auth_token}
use server_jt.Registry.Map.{get}
use server_jt.Registry.Laws.{get-unregister, is_other}
use server_jt.Configuration.{Config}
use server_jt.Actions.{Answers}
use server_jt.Handler.{dispatch, handle_authentication, msg_name}
use server_jt.Handler.Guard.{dispatch_authentication}
use server_jt.Handler.Keeps.{dispatch_local}
use server_jt.Handler.Login.{
  login_phone, handle_authentication_accepts, handle_authentication_rejects,
}
use server_jt.Handler.Progress.{is_connected, dispatch-connected}
use server_jt.Server.{close_conn, accept, auth_timeout, leave}
use server_jt.Server.Steps.{
  Step, accepts, dispatches, leaves, auth_times_out, timer_closes, Reachable, starts, steps,
}
use mathlib.Core.Path.{subst}

-- The registry names only sessions that have left `connected`.
abbrev HasGuests : World → Type 0
HasGuests w =
    (j : Bytes) (i : ℕ) → get j w.local ≡ some i → is_connected (w.sessions i).state ≡ false

close_session-keeps : (sid : ℕ) (w : World) → HasGuests w → HasGuests (close_session sid w)
unfolding close_session emit put_session close
close_session-keeps sid w h j i e = ground (arith, h j i e)

auth_timeout-keeps : (sid : ℕ) (w : World) → HasGuests w → HasGuests (auth_timeout sid w)
unfolding auth_timeout close_session emit put_session close
auth_timeout-keeps sid w h j i e = ground (arith, h j i)

accept-keeps :
    (sid : ℕ) (addr : Bytes) (now : ℕ) (w : World)
    → ((j : Bytes) → get j w.local ≢ some sid)
    → HasGuests w
    → HasGuests (accept sid addr now w)
unfolding accept emit put_session
accept-keeps sid addr now w fresh h j i e = elim (ℕ_discrete i sid) [
  | yes p ↦ absurd (fresh j (e ∙ ap some p))
  | no n ↦ rw (==_ne i sid n) (h j i e)
]

unregister-sessions : (sid : ℕ) (w : World) → (unregister sid w).sessions ≡ w.sessions
unfolding unregister go
unregister-sessions sid w = elim (Bool-cases (same (w.sessions sid).phone [])) [
  | inl t ↦ rw t refl
  | inr t ↦ rw t refl
]

unregister-keeps : (sid : ℕ) (w : World) → HasGuests w → HasGuests (unregister sid w)
unregister-keeps sid w h j i e =
    ap (λ s. is_connected (s i).state) (unregister-sessions sid w)
    ∙ h j i (ground (arith, get-unregister sid w j))

closed_conn :
    (w : World) (sid i : ℕ)
    → is_connected ((close_conn sid w).sessions i).state ≡ is_connected (w.sessions i).state
unfolding close_conn emit put_session
closed_conn w sid i = elim (ℕ_discrete i sid) [
  | yes p ↦ rw (p, ==_refl sid) refl
  | no n ↦ rw (==_ne i sid n) refl
]

leave-keeps : (sid : ℕ) (w : World) → HasGuests w → HasGuests (leave sid w)
unfolding leave emit close_conn put_session
leave-keeps sid w h j i e =
    closed_conn (unregister sid (emit (auth_timer_stopped sid) w)) sid i
    ∙ unregister-keeps sid (emit (auth_timer_stopped sid) w) h j i e

-- A step that changes the session `sid` alone, and does not take it back to `connected`.
carried :
    (w w' : World) (sid i : ℕ)
    → (i ≡ sid) ⊎ (w'.sessions i ≡ w.sessions i)
    → (is_connected (w.sessions sid).state ≡ false → is_connected (w'.sessions sid).state ≡ false)
    → is_connected (w.sessions i).state ≡ false
    → is_connected (w'.sessions i).state ≡ false
carried w w' sid i (inl p) own past =
    let at_sid = λ (v : World) (k : ℕ). is_connected (v.sessions k).state in
    ap (at_sid w') p ∙ own (sym (ap (at_sid w) p) ∙ past)
carried w w' sid i (inr q) own past = ap (λ s. is_connected s.state) q ∙ past

closed_or_same :
    (b : Bool) (s : Session)
    → is_connected s.state ≡ false
    → is_connected (if b then close s else s).state ≡ false
unfolding close
closed_or_same true s h = refl
closed_or_same false s h = h

refuted_or_not : (o : Option Bool) → (o ≡ some false) ⊎ (o ≢ some false)
refuted_or_not none = inr (ground arith)
refuted_or_not (some true) = inr (ground arith)
refuted_or_not (some false) = inl refl

module _ (cfg : Config) (a : Answers) (sid : ℕ) (f : Frame) where
  -- An entry behind an accepted login: the session itself, or an entry from before.
  entry :
      (w w' : World) (j phone : Bytes) (i : ℕ) (o : Option ℕ)
      → HasGuests w
      → get j w'.local ≡ some i
      → get j w'.local ≡ (if same phone j then some sid else get j w.local)
      → (i ≡ sid)
        ⊎ (w'.sessions i ≡ (if is_other sid i o then close (w.sessions i) else w.sessions i))
      → is_connected (w'.sessions sid).state ≡ false
      → is_connected (w'.sessions i).state ≡ false
  entry w w' j phone i o h e he (inl p) own = ap (λ k. is_connected (w'.sessions k).state) p ∙ own
  entry w w' j phone i o h e he (inr q) own = elim (Bool-cases (same phone j)) [
    | inl own_entry ↦ ap (λ k. is_connected (w'.sessions k).state) (the_same own_entry) ∙ own
    | inr other ↦
        ap (λ s. is_connected s.state) q
        ∙ closed_or_same (is_other sid i o) (w.sessions i) (h j i (before other))
  ]
    where
      the_same : same phone j ≡ true → i ≡ sid
      the_same t = ground arith

      before : same phone j ≡ false → get j w.local ≡ some i
      before t = ground arith

  login-keeps : (w : World) → HasGuests w → HasGuests (handle_authentication cfg a sid f w)
  login-keeps w h j i e = elim (refuted_or_not (validate_auth_token a.token f.body)) [
    | inl bad ↦
        let kept = handle_authentication_rejects cfg a sid f w bad in
        let before = h j i (ap (get j) (sym kept.2) ∙ e) in
        carried w (handle_authentication cfg a sid f w) sid i (kept.5 i)
          (λ past. ap is_connected kept.0 ∙ past) before
    | inr good ↦
        let taken = handle_authentication_accepts cfg a sid f w good in
        entry w (handle_authentication cfg a sid f w) j (login_phone cfg a sid f w) i
          (get (login_phone cfg a sid f w) w.local) h e (taken.2 j) (taken.3 i)
          (ap is_connected taken.0)
  ]

  dispatch-keeps : (w : World) → HasGuests w → HasGuests (dispatch cfg a sid f w)
  unfolding emit
  dispatch-keeps w h = elim (ℕ_discrete f.msg_id msg_authentication) [
    | yes p ↦
        subst HasGuests (sym (dispatch_authentication cfg a sid f w p)) (login-keeps (counted w) h)
    | no n ↦ λ j i e.
        let kept = dispatch_local cfg a sid f w n in
        carried w (dispatch cfg a sid f w) sid i (kept.1 i) (dispatch-connected cfg a sid f w n)
          (h j i (ap (get j) (sym kept.0) ∙ e))
  ]
    where
      counted : World → World
      counted v = emit (inc (frames_received (msg_name f.msg_id))) v

Step-keeps : (cfg : Config) (v w : World) → Step cfg v w → HasGuests v → HasGuests w
Step-keeps cfg _ _ (accepts sid addr now w fresh) h = accept-keeps sid addr now w fresh h
Step-keeps cfg _ _ (dispatches a sid f w) h = dispatch-keeps cfg a sid f w h
Step-keeps cfg _ _ (leaves sid w) h = leave-keeps sid w h
Step-keeps cfg _ _ (auth_times_out sid w) h = auth_timeout-keeps sid w h
Step-keeps cfg _ _ (timer_closes sid w) h = close_session-keeps sid w h

Reachable-keeps : (cfg : Config) (w : World) → Reachable cfg w → HasGuests w
unfolding get
Reachable-keeps cfg _ (starts sessions) = λ j i e. ground arith
Reachable-keeps cfg _ (steps v w r st) = Step-keeps cfg v w st (Reachable-keeps cfg v r)

-- Whatever the order of the calls and whatever the peers send, the registry never names a
-- connection that has neither registered nor authenticated.
pub entry_left_connected :
    (cfg : Config) (w : World) (j : Bytes) (i : ℕ)
    → Reachable cfg w
    → get j w.local ≡ some i
    → (w.sessions i).state ≢ connected
entry_left_connected cfg w j i r e p =
    ground (arith, ap is_connected p, Reachable-keeps cfg w r j i e)
