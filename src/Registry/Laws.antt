-- ===== src/Registry/Laws.antt =====
-- `Register` and `Unregister` on the local map, with the sessions that they close.
use server_jt.Base.{
  ℕ, ◌≡◌, refl, Bool, false, Option, none, some, List, [], ◌∷◌, ◌++◌, arith, ◌==◌, not, ◌&&◌,
  if◌then◌else◌,
}
use server_jt.Base.Text.{same}
use server_jt.Protocol.Types.{Bytes}
use server_jt.Session.{close}
use server_jt.World.{World, drop_online, started, put_session, emit, go}
use server_jt.Registry.Map.{get, insert, delete, get-insert, get-delete}
use server_jt.Registry.{register, unregister, evict, delete_if_own, close_session}

abbrev pub holds : ℕ → Option ℕ → Bool
holds sid none = false
holds sid (some k) = k == sid

-- Whether the entry names a session that is `i` and is not `sid`.
abbrev pub is_other : ℕ → ℕ → Option ℕ → Bool
is_other sid i none = false
is_other sid i (some old) = old == i && not (old == sid)

get-evict :
    (sid : ℕ) (phone j : Bytes) (o : Option ℕ) (w : World)
    → get j (insert phone sid (evict sid phone o w).local)
      ≡ (if same phone j then some sid else get j w.local)
unfolding evict close_session emit put_session
get-evict sid phone j none w = get-insert phone j sid w.local
get-evict sid phone j (some old) w = ground (
  arith,
  get-insert phone j sid w.local,
  get-insert phone j sid (delete phone w.local),
  get-delete phone j w.local,
)

evict-sessions :
    (sid : ℕ) (phone : Bytes) (o : Option ℕ) (w : World) (i : ℕ)
    → (evict sid phone o w).sessions i
      ≡ (if is_other sid i o then close (w.sessions i) else w.sessions i)
unfolding evict close_session emit put_session
evict-sessions sid phone none w i = refl
evict-sessions sid phone (some old) w i = ground arith

module _ (sid : ℕ) (w : World) where
  -- After `Register` the phone's entry is this session and no other phone's entry has changed.
  pub get-register :
      (j : Bytes)
      → get j (register sid w).local
        ≡ (if same (w.sessions sid).phone j then some sid else get j w.local)
  unfolding register go
  get-register j = get-evict sid (w.sessions sid).phone j (get (w.sessions sid).phone w.local) w

  -- `Register` closes the other session that was registered under the phone, if there is one, and
  -- leaves every other session as it was.
  pub register-sessions :
      (i : ℕ)
      → (register sid w).sessions i ≡ (
          if is_other sid i (get (w.sessions sid).phone w.local)
          then close (w.sessions i)
          else w.sessions i)
  unfolding register go
  register-sessions i =
      evict-sessions sid (w.sessions sid).phone (get (w.sessions sid).phone w.local) w i

get-delete_if_own :
    (sid : ℕ) (phone j : Bytes) (m : List (Bytes × ℕ)) (o : Option ℕ)
    → get phone m ≡ o
    → get j (delete_if_own sid phone o m) ≡ (if same phone j && holds sid o then none else get j m)
unfolding delete_if_own
get-delete_if_own sid phone j m none h = ground arith
get-delete_if_own sid phone j m (some k) h = ground (arith, get-delete phone j m)

-- The entries behind `Unregister`.
pub get-unregister :
    (sid : ℕ) (w : World) (j : Bytes)
    → let phone = (w.sessions sid).phone in
      get j (unregister sid w).local ≡ (
        if not (same phone []) && (same phone j && holds sid (get phone w.local))
        then none
        else get j w.local)
unfolding unregister go
get-unregister sid w j = ground (
  arith,
  get-delete_if_own sid (w.sessions sid).phone j w.local (get (w.sessions sid).phone w.local) refl,
)

-- `Unregister` takes the session's own entry out and leaves the entries of other sessions, also one
-- that has replaced it under the same phone, and it starts the goroutine that drops the session's
-- Redis entries, whether or not the entry was its own. A session that has no phone number changes
-- no entry and starts nothing. No session is changed.
pub unregister_lem :
    (sid : ℕ) (w : World)
    → let phone = (w.sessions sid).phone in
      let w' = unregister sid w in
      ((j : Bytes)
        → get j w'.local ≡ (
            if not (same phone []) && (same phone j && holds sid (get phone w.local))
            then none
            else get j w.local))
      × (w'.pending ≡ (if same phone [] then w.pending else w.pending ++ drop_online sid ∷ []))
      × (w'.trace ≡ (if same phone [] then w.trace else started (drop_online sid) ∷ w.trace))
      × (w'.sessions ≡ w.sessions)
unfolding unregister go
unregister_lem sid w = (get-unregister sid w, ground arith, ground arith, ground arith)
