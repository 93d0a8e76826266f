-- ===== src/Server/Expiry.antt =====
-- Location reports and the online set.
use server_jt.Base.{
  ℕ, ◌+◌, ◌≤◌, ◌≡◌, refl, none, some, List, [], ◌∷◌, ◌++◌, All, All-append, inl, inr,
}
use server_jt.Protocol.Types.{Bytes, msg_location_report}
use server_jt.Protocol.Frame.{Frame}
use server_jt.World.{
  World, Task, publish_location, publish_event, put_online, refresh_online, drop_online, inc,
  frames_received, emit,
}
use server_jt.Registry.Redis.{commands, run_tasks, prune_stale, online_after}
use server_jt.Registry.Score.{to_float64}
use server_jt.Registry.Prune.{online_after-prune_stale}
use server_jt.Configuration.{Config}
use server_jt.Actions.{Answers}
use server_jt.Handler.{dispatch, msg_name}
use server_jt.Handler.Guard.{dispatch_location}
use server_jt.Handler.Located.{handle_location-pending}

-- The tasks that do not speak to the registry's keys.
abbrev IsPublish : Task → Type 0
IsPublish (put_online sid) = ⊥
IsPublish (refresh_online sid) = ⊥
IsPublish (drop_online sid) = ⊥
IsPublish (publish_event name phone fields) = Unit {0}
IsPublish (publish_location phone loc) = Unit {0}

run_publishes :
    (prefix : Bytes) (nanos : ℕ) (w : World) (ts : List Task)
    → All IsPublish ts
    → run_tasks prefix nanos w ts ≡ []
unfolding run_tasks commands
run_publishes prefix nanos w [] h = refl
run_publishes prefix nanos w (put_online sid ∷ ts) h = absurd h.0
run_publishes prefix nanos w (refresh_online sid ∷ ts) h = absurd h.0
run_publishes prefix nanos w (drop_online sid ∷ ts) h = absurd h.0
run_publishes prefix nanos w (publish_event name phone fields ∷ ts) h =
    run_publishes prefix nanos w ts h.1
run_publishes prefix nanos w (publish_location phone loc ∷ ts) h =
    run_publishes prefix nanos w ts h.1

module _ (cfg : Config) (sid : ℕ) where
  -- The dispatches of frames of one connection, each with the answers to it.
  pub dispatch_frames : List (Answers × Frame) → World → World
  dispatch_frames [] w = w
  dispatch_frames ((a, f) ∷ fs) w = dispatch_frames fs (dispatch cfg a sid f w)

  publishes_more :
      (a : Answers) (f : Frame) (w : World)
      → f.msg_id ≡ msg_location_report
      → All IsPublish w.pending
      → All IsPublish (dispatch cfg a sid f w).pending
  unfolding emit
  publishes_more a f w h p =
      let w1 = emit (inc (frames_received (msg_name f.msg_id))) w in
      rw (dispatch_location cfg a sid f w h) (elim (handle_location-pending cfg a sid f w1) [
        | inl e ↦ rw e p
        | inr (loc, e) ↦ rw e (All-append IsPublish w.pending _ p (tt, tt))
      ])

  only_publishes :
      (fs : List (Answers × Frame)) (w : World)
      → All (λ af. af.1.msg_id ≡ msg_location_report) fs
      → All IsPublish w.pending
      → All IsPublish (dispatch_frames fs w).pending
  unfolding dispatch_frames
  only_publishes [] w h p = p
  only_publishes ((a, f) ∷ fs) w h p =
      only_publishes fs (dispatch cfg a sid f w) h.1 (publishes_more a f w h.0 p)

  -- A connection that sends nothing but location reports does not keep its phone online: the
  -- goroutines that its dispatches start do not touch the online set, so the next `PruneStale` that
  -- comes `ttl` or more after the time of the phone's score removes it, whatever the handlers
  -- answered.
  pub location_reports_expire :
      (p prefix : Bytes) (fs : List (Answers × Frame)) (w : World) (nanos ttl last : ℕ)
      → All (λ af. af.1.msg_id ≡ msg_location_report) fs
      → w.pending ≡ []
      → last + ttl ≤ nanos
      → let w' = dispatch_frames fs w in
        online_after p
          (run_tasks prefix nanos w' w'.pending ++ prune_stale nanos ttl ∷ [])
          (some (to_float64 last))
        ≡ none
  location_reports_expire p prefix fs w nanos ttl last h hp ht =
      let w' = dispatch_frames fs w in
      rw (run_publishes prefix nanos w' w'.pending (only_publishes fs w h (rw hp tt)))
        (online_after-prune_stale p nanos ttl last ht)
