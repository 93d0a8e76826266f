-- ===== src/Handler/Located.antt =====
-- A location report: the reply first, then what is published.
use server_jt.Base.{
  ℕ, ◌<◌, ◌≡◌, ◌≢◌, ◌⊎◌, inl, inr, refl, true, false, Bool-cases, List, [], ◌∷◌, ◌++◌, arith,
  if◌then◌else◌, length,
}
use server_jt.Base.Text.{same}
use server_jt.Protocol.Types.{Bytes, result_ok, alarm_sos}
use server_jt.Protocol.Frame.{Frame}
use server_jt.Protocol.Location.{
  LocationReport, Decoded, decoded, body_too_short, decode_location, has_alarm,
}
use server_jt.Protocol.Location.Wire.{decode_location_short_iff}
use server_jt.Session.{ack, send, touch_location}
use server_jt.World.{
  World, Task, Effect, inc, decode_errors, sos_alarms, location_reports, started, publish_location,
  wrote, emit, go, put_session,
}
use server_jt.Registry.Keys.{same_iff, same_ne}
use server_jt.Configuration.{Config}
use server_jt.Actions.{Answers, ack_to, update}
use server_jt.Handler.{handle_location, located, count_sos}

-- The alarm counter's entry, if the report has the SOS bit.
abbrev pub sos_entry : LocationReport → List Effect → List Effect
sos_entry loc xs = if has_alarm loc alarm_sos then inc sos_alarms ∷ xs else xs

module _ (cfg : Config) (a : Answers) (sid : ℕ) (f : Frame) (w : World) where
  -- The phone under which a report is published: the session's, or the frame's if it has none.
  abbrev pub report_phone : Bytes
  report_phone = if same (w.sessions sid).phone [] then f.phone else (w.sessions sid).phone

  -- The frame that acknowledges the report.
  abbrev pub reply : Effect
  reply = wrote sid (ack f result_ok (w.sessions sid)).1

  own-acked : ((ack_to sid f result_ok w).sessions sid).phone ≡ (w.sessions sid).phone
  unfolding ack_to emit put_session ack send
  own-acked = ground arith

  reported :
      (d : Decoded LocationReport)
      → a.write_ok ≡ true
      → report_phone ≢ []
      → decode_location f.body ≡ d
      → handle_location cfg a sid f w
        ≡ located cfg a sid f report_phone d (ack_to sid f result_ok w)
  unfolding handle_location
  reported d hw hp hd = rw (own-acked, hw, same_ne report_phone [] hp, hd)

  -- A report that is acknowledged, has a phone number and decodes is published under that number
  -- once, behind its acknowledgement and the counters, and the session's location time is set.
  pub handle_location_publishes :
      (loc : LocationReport)
      → a.write_ok ≡ true
      → report_phone ≢ []
      → decode_location f.body ≡ decoded loc
      → let w' = handle_location cfg a sid f w in
        (w'.trace
          ≡ started (publish_location report_phone loc)
            ∷ sos_entry loc (inc location_reports ∷ reply ∷ w.trace))
        × (w'.pending ≡ w.pending ++ publish_location report_phone loc ∷ [])
        × ((w'.sessions sid).last_location ≡ a.nanos)
  unfolding located count_sos emit go update put_session touch_location ack_to
  handle_location_publishes loc hw hp hd =
      rw (reported (decoded loc) hw hp hd) (ground arith, ground arith, ground arith)

  no_phone : report_phone ≡ [] → handle_location cfg a sid f w ≡ ack_to sid f result_ok w
  unfolding handle_location same
  no_phone h = rw (own-acked, h) (ground arith)

  too_short :
      length f.body < 28
      → (handle_location cfg a sid f w ≡ ack_to sid f result_ok w)
        ⊎ (handle_location cfg a sid f w ≡ emit (inc decode_errors) (ack_to sid f result_ok w))
  unfolding handle_location located
  too_short h = ground (arith, (decode_location_short_iff f.body (length f.body)).1 (h, refl))

  abbrev Quiet : World → Type 0
  Quiet w' =
      (w'.pending ≡ w.pending) × ((w'.sessions sid).last_location ≡ (w.sessions sid).last_location)

  acked-Quiet : Quiet (ack_to sid f result_ok w)
  unfolding ack_to emit put_session ack send
  acked-Quiet = (refl, ground arith)

  counted-Quiet : Quiet (emit (inc decode_errors) (ack_to sid f result_ok w))
  unfolding emit
  counted-Quiet = acked-Quiet

  unwritten : a.write_ok ≡ false → handle_location cfg a sid f w ≡ ack_to sid f result_ok w
  unfolding handle_location
  unwritten h = rw h

  -- In all other cases nothing is published and the location time stays: the write failed, neither
  -- the session nor the frame has a phone number, or the body is too short.
  pub handle_location_silent :
      (a.write_ok ≡ false) ⊎ (report_phone ≡ []) ⊎ (length f.body < 28)
      → let w' = handle_location cfg a sid f w in
        (w'.pending ≡ w.pending)
        × ((w'.sessions sid).last_location ≡ (w.sessions sid).last_location)
  handle_location_silent (inl h) = rw (unwritten h) acked-Quiet
  handle_location_silent (inr (inl h)) = rw (no_phone h) acked-Quiet
  handle_location_silent (inr (inr h)) = elim (too_short h) [
    | inl e ↦ rw e acked-Quiet
    | inr e ↦ rw e counted-Quiet
  ]

  located-pending :
      (p : Bytes) (d : Decoded LocationReport) (w1 : World) (ts : List Task)
      → w1.pending ≡ ts
      → ((located cfg a sid f p d w1).pending ≡ ts)
        ⊎ ((loc : LocationReport) × ((located cfg a sid f p d w1).pending
              ≡ ts ++ publish_location p loc ∷ []))
  unfolding located count_sos emit go update put_session touch_location
  located-pending p (body_too_short n) w1 ts h = inl h
  located-pending p (decoded loc) w1 ts h = inr (loc, ground arith)

  has_phone : same report_phone [] ≡ false → report_phone ≢ []
  has_phone e h = let t = (same_iff report_phone []).1 h in cc

  -- A location report starts at most the publication of one report.
  pub handle_location-pending :
      let w' = handle_location cfg a sid f w in
      (w'.pending ≡ w.pending)
      ⊎ ((loc : LocationReport) × (w'.pending
            ≡ w.pending ++ publish_location report_phone loc ∷ []))
  handle_location-pending =
      let d = decode_location f.body in
      elim (Bool-cases a.write_ok) [
        | inr hw ↦ rw (unwritten hw) (inl acked-Quiet.0)
        | inl hw ↦ elim (Bool-cases (same report_phone [])) [
          | inl e ↦ rw (no_phone ((same_iff report_phone []).0 e)) (inl acked-Quiet.0)
          | inr e ↦
              rw (reported d hw (has_phone e) refl)
                (located-pending report_phone d (ack_to sid f result_ok w) w.pending acked-Quiet.0)
        ]
      ]
