-- ===== src/Tests/Others.antt =====
-- A connection of the simulated tracker among others, and a session that is closed.
use server_jt.Handler.Keeps.{dispatch_local}
use server_jt.Base.{inl, inr, ap, ◌∙◌, ◌≡◌, refl, true, [], ◌∷◌, ◌++◌, arith}
use server_jt.Base.Text.{ascii}
use server_jt.Protocol.Types.{msg_registration, msg_heartbeat, Bytes}
use server_jt.Protocol.Frame.{Frame, timeout}
use server_jt.Protocol.Frame.RoundTrip.{plain_frame}
use server_jt.Session.{new_session}
use server_jt.World.{World, refresh_online, publish_event, no_payload, emit, put_session}
use server_jt.Registry.{close_session}
use server_jt.Handler.{dispatch}
use server_jt.Handler.Closing.{closed_session_beats, heartbeat_keeps_open}
use server_jt.Server.Steps.{dispatches}
use server_jt.Server.Among.{Way, over, handled, meanwhile, speaker, StaysOpen}
use server_jt.Handler.Written.{writes_of}
use server_jt.Server.{accept}
use server_jt.Device.Run.{main_loop, idle, heartbeat_tick}
use server_jt.Device.Ticks.{tick_outputs, tick_frame}
use server_jt.Device.Conversation.{tick_list}
use server_jt.Device.Conversation.Others.{device_among_others}
use server_jt.Device.{build_reg_body}
use server_jt.Tests.Connections.{cfg, answers, empty_world}
use server_jt.Tests.Devices.{imei, session}
use server_jt.Tests.Systems.{reports}
use server_jt.Tests.Journeys.{model}

-- The connection 3 belongs to the device.
abbrev own_world : World
own_world = record empty_world { sessions = λ i. session }

-- Another device registers on the connection 4.
abbrev visitor : Frame
visitor = plain_frame msg_registration imei 1 (build_reg_body imei model)

abbrev visited : World
visited = dispatch cfg answers 4 visitor own_world

abbrev answered : World
answered = dispatch cfg answers 3 (plain_frame msg_heartbeat imei 3 []) visited

in_between :
    Way cfg 3
      (tick_list timeout (λ k. true) imei model reports (heartbeat_tick ∷ []) 3 0)
      own_world
      answered
unfolding tick_list tick_frame speaker
in_between =
    meanwhile (plain_frame msg_heartbeat imei 3 [] ∷ []) own_world visited answered
      (dispatches answers 4 visitor own_world) (ground arith)
      (handled answers (plain_frame msg_heartbeat imei 3 []) [] visited answered (over answered))

visited-IsOpen : (visited.sessions 3).conn_open ≡ true
unfolding plain_frame new_session
visited-IsOpen = elim ((dispatch_local cfg answers 4 visitor own_world (ground arith)).1 3) [
  | inl e ↦ absurd (omega (arith, e))
  | inr e ↦ ap (λ s. s.conn_open) e
]

answered-IsOpen : (answered.sessions 3).conn_open ≡ true
unfolding plain_frame
answered-IsOpen =
    heartbeat_keeps_open cfg answers 3 (plain_frame msg_heartbeat imei 3 []) visited refl
    ∙ visited-IsOpen

device_among_others_example :
    (replies : Bytes) × (writes_of 3 answered.trace ≡ writes_of 3 own_world.trace ++ replies)
    × (main_loop timeout (λ k. true) imei model reports (heartbeat_tick ∷ []) 3 0 replies
        ≡ (tick_outputs timeout (λ k. true) imei model reports (heartbeat_tick ∷ []) 3 0, idle))
unfolding StaysOpen in_between
device_among_others_example =
    device_among_others timeout (λ k. true) imei model reports cfg 3 (heartbeat_tick ∷ []) 3 0
      own_world answered in_between (refl, visited-IsOpen, answered-IsOpen) (ground arith)
      (λ k. refl)

closed_session_beats_example :
    let f = plain_frame msg_heartbeat imei 3 [] in
    let w = accept 3 (ascii "10.0.0.1:4000") 1700000000 empty_world in
    ((dispatch cfg answers 3 f w).pending ≡ [])
    × ((dispatch cfg answers 3 f (close_session 3 w)).pending
        ≡ ([] ++ refresh_online 3 ∷ [])
          ++ publish_event (ascii "heartbeat") (w.sessions 3).phone no_payload ∷ [])
unfolding accept emit put_session new_session plain_frame
closed_session_beats_example =
    closed_session_beats cfg answers 3 (plain_frame msg_heartbeat imei 3 [])
      (accept 3 (ascii "10.0.0.1:4000") 1700000000 empty_world) (omega arith) refl
