-- ===== src/Server/Owners.antt =====
-- The registry as a client sees it: which connection owns a phone. Each call is one event of this
-- view, or none.
use server_jt.Base.{
  ℕ, ◌≡◌, ◌≢◌, refl, sym, ap, ◌∙◌, inl, inr, Bool, true, false, Option, none, some, [], arith, ◌==◌,
  ◌&&◌, not, if◌then◌else◌, ℕ_discrete, Bool-cases, ltb, ==_ne,
}
use server_jt.Base.Text.{same}
use server_jt.Protocol.Types.{Bytes, msg_authentication}
use server_jt.Protocol.Frame.{Frame}
use server_jt.Session.{rank, authenticated}
use server_jt.World.{World, emit, put_session, auth_timer_stopped, inc, frames_received}
use server_jt.Registry.{close_session, validate_auth_token}
use server_jt.Registry.Map.{get}
use server_jt.Registry.Entries.{get_session}
use server_jt.Registry.Laws.{get-unregister, holds}
use server_jt.Configuration.{Config}
use server_jt.Actions.{Answers}
use server_jt.Handler.{dispatch, handle_authentication, msg_name}
use server_jt.Handler.Guard.{dispatch_authentication}
use server_jt.Handler.Keeps.{dispatch_local}
use server_jt.Handler.Login.{
  login_phone, handle_authentication_accepts, handle_authentication_rejects,
}
use server_jt.Server.{close_conn, accept, auth_timeout, leave}
use server_jt.Server.Steps.{
  Step, accepts, dispatches, leaves, auth_times_out, timer_closes, Reachable, starts, steps,
}

-- The connection that answers for a phone.
abbrev pub Owners : Type 0
Owners = Bytes → Option ℕ

pub data Event : Type 0 where
  nothing : Event
  takes drops : Bytes → ℕ → Event

-- A connection takes a phone from whoever has it, and drops only a phone that it still has.
unfoldable pub after_event : Event → Owners → Owners
after_event nothing o j = o j
after_event (takes phone sid) o j = if same phone j then some sid else o j
after_event (drops phone sid) o j =
    if not (same phone []) && (same phone j && holds sid (o phone)) then none else o j

validated : Option Bool → Bytes → ℕ → Event
validated (some false) phone sid = nothing
validated (some true) phone sid = takes phone sid
validated none phone sid = takes phone sid

module _ (cfg : Config) where
  -- Only an authentication whose token is not refuted takes a phone.
  unfoldable pub dispatch_event : Answers → ℕ → Frame → World → Event
  unfolding validated
  dispatch_event a sid f w =
      if f.msg_id == msg_authentication
      then validated (validate_auth_token a.token f.body) (login_phone cfg a sid f w) sid
      else nothing

  unfoldable pub event : (v w : World) → Step cfg v w → Event
  event _ _ (accepts sid addr now w fresh) = nothing
  event _ _ (dispatches a sid f w) = dispatch_event a sid f w
  event _ _ (leaves sid w) = drops (w.sessions sid).phone sid
  event _ _ (auth_times_out sid w) = nothing
  event _ _ (timer_closes sid w) = nothing

  -- The owners that the calls up to a world make, from an empty registry on.
  unfoldable pub owners : (w : World) → Reachable cfg w → Owners
  owners _ (starts sessions) = λ j. none
  owners _ (steps v w r st) = after_event (event v w st) (owners v r)

  after_event-cong :
      (x : Event) (o p : Owners) (j : Bytes)
      → ((k : Bytes) → o k ≡ p k)
      → after_event x o j ≡ after_event x p j
  unfolding after_event
  after_event-cong nothing o p j h = h j
  after_event-cong (takes phone sid) o p j h = rw (h j) refl
  after_event-cong (drops phone sid) o p j h = rw (h j, h phone) refl

  Refines : Event → World → World → Type 0
  Refines x v w = (j : Bytes) → get j w.local ≡ after_event x (λ k. get k v.local) j

  login-Refines :
      (a : Answers) (sid : ℕ) (f : Frame) (w : World) (o : Option Bool)
      → validate_auth_token a.token f.body ≡ o
      → Refines
          (validated o (login_phone cfg a sid f w) sid)
          w
          (handle_authentication cfg a sid f w)
  unfolding Refines validated after_event
  login-Refines a sid f w (some false) h j =
      ap (get j) (handle_authentication_rejects cfg a sid f w h).2
  login-Refines a sid f w (some true) h j =
      (handle_authentication_accepts cfg a sid f w (λ e. ground (arith, e, h))).2 j
  login-Refines a sid f w none h j =
      (handle_authentication_accepts cfg a sid f w (λ e. ground (arith, e, h))).2 j

  dispatch-Refines :
      (a : Answers) (sid : ℕ) (f : Frame) (w : World)
      → Refines (dispatch_event a sid f w) w (dispatch cfg a sid f w)
  unfolding Refines dispatch_event after_event emit
  dispatch-Refines a sid f w j = elim (ℕ_discrete f.msg_id msg_authentication) [
    | yes p ↦
        let w1 = emit (inc (frames_received (msg_name f.msg_id))) w in
        rw (dispatch_authentication cfg a sid f w p) (
          login-Refines a sid f w1 (validate_auth_token a.token f.body) refl j
          ∙ sym (ap (λ (x : Event). after_event x (λ k. get k w.local) j) (authentication p)))
    | no n ↦
        ap (get j) (dispatch_local cfg a sid f w n).0
        ∙ sym (ap (λ (x : Event). after_event x (λ k. get k w.local) j) (no_login n))
  ]
    where
      authentication :
          f.msg_id ≡ msg_authentication
          → dispatch_event a sid f w
            ≡ validated (validate_auth_token a.token f.body) (login_phone cfg a sid f w) sid
      authentication p = rw p refl

      no_login : f.msg_id ≢ msg_authentication → dispatch_event a sid f w ≡ nothing
      no_login n = rw (==_ne f.msg_id msg_authentication n) refl

  Step-Refines : (v w : World) (st : Step cfg v w) → Refines (event v w st) v w
  unfolding Refines event after_event accept leave auth_timeout close_session emit put_session
      close_conn
  Step-Refines _ _ (accepts sid addr now w fresh) j = refl
  Step-Refines _ _ (dispatches a sid f w) j = dispatch-Refines a sid f w j
  Step-Refines _ _ (leaves sid w) j = get-unregister sid (emit (auth_timer_stopped sid) w) j
  Step-Refines _ _ (auth_times_out sid w) j =
      elim (Bool-cases (ltb (rank (w.sessions sid).state) (rank authenticated))) [
        | inl e ↦ rw e refl
        | inr e ↦ rw e refl
      ]
  Step-Refines _ _ (timer_closes sid w) j = refl

  -- The registry implements its owners. In every reachable world, however the calls came to it,
  -- `Get` finds for each phone the connection that owns it: the last one that logged in under the
  -- phone with a token that was not refuted, unless this connection has ended since then with the
  -- phone as the number of its session. No other message or timer changes an owner, nor does the
  -- end of a connection whose session has another number by then, or none.
  pub registry_refines_owners :
      (w : World) (r : Reachable cfg w) (j : Bytes) → get_session j w ≡ owners w r j
  unfolding owners get get_session Refines
  registry_refines_owners _ (starts sessions) j = refl
  registry_refines_owners _ (steps v w r st) j =
      Step-Refines v w st j
      ∙ after_event-cong (event v w st) (λ k. get k v.local) (owners v r) j
          (λ k. registry_refines_owners v r k)
