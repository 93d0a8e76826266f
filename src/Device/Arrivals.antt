-- ===== src/Device/Arrivals.antt =====
-- The device's report on its way to the stream: `buildLocationBody`, `Dispatch`, `PublishLocation`.
use server_jt.Base.{ℕ, ◌<◌, ◌≡◌, ◌≢◌, refl, ap, ◌∙◌, true, some, none, [], ◌∷◌, ◌++◌}
use server_jt.Base.Int.{pos}
use server_jt.Base.Text.{ascii}
use server_jt.Protocol.Types.{Bytes, IsU16, msg_location_report}
use server_jt.Protocol.Frame.{Frame}
use server_jt.Protocol.Location.{has_flag, decode_location}
use server_jt.World.{World, publish_location, inc, frames_received, emit}
use server_jt.Configuration.{Config}
use server_jt.Actions.{Answers}
use server_jt.Handler.{dispatch, msg_name}
use server_jt.Handler.Guard.{dispatch_location}
use server_jt.Handler.Located.{report_phone, handle_location_publishes}
use server_jt.Forwarder.{StreamEntry, location_entry, active_alarm_names, active_among}
use server_jt.Forwarder.Publish.{Stream, publish_location as add_location, of_location}
use server_jt.Device.{Position, Clock, clamp, build_location_body}
use server_jt.Device.Reports.{
  meant, decode_location-build_location_body, extract_battery-meant, clamp_percent,
}

-- What the stream gets for a report.
pub record Arrived (p : Position) (phone : Bytes) (now : ℕ) (x : StreamEntry) : Type 0 where
  pub phone_kept : x.phone ≡ phone
  pub latitude_kept : x.latitude ≡ some p.latitude
  pub longitude_kept : x.longitude ≡ some p.longitude
  pub altitude_kept : x.altitude ≡ p.altitude
  pub speed_kept : x.speed ≡ p.speed
  pub heading_kept : x.direction ≡ p.heading
  pub battery_kept : (n : ℕ) × (clamp p.battery 0 100 ≡ pos n) × (x.battery_level ≡ some n)
  pub no_flags_battery : x.battery_from_flags ≡ none
  pub no_alarm : x.active_alarms ≡ ascii "[]"
  pub time_kept : x.published_at ≡ now

entry-Arrived :
    (p : Position) (t : Clock) (csq now : ℕ) (phone : Bytes)
    → Arrived p phone now (location_entry now phone (meant p t csq))
unfolding location_entry active_alarm_names active_among has_flag
entry-Arrived p t csq now phone =
    let level = clamp_percent p.battery in
    let read = extract_battery-meant p t csq ∙ level.1 in
    record {
      phone_kept = refl;
      latitude_kept = refl;
      longitude_kept = refl;
      altitude_kept = refl;
      speed_kept = refl;
      heading_kept = refl;
      battery_kept = (level.0, level.1, rw read refl);
      no_flags_battery = rw read refl;
      no_alarm = refl;
      time_kept = refl;
    }

-- The report that a device sends reaches the stream. A connection on which a location report with
-- the device's body is dispatched, acknowledged without a write error and having a phone number,
-- starts one publication under that number; its `XADD` goes to the configured stream, and holds
-- the device's position, speed and heading, its battery between 0 and 100, and no alarm. The
-- condition is that each number fits its field on the wire.
pub report_arrives :
    (cfg : Config) (a : Answers) (sid : ℕ) (f : Frame) (w : World) (p : Position) (t : Clock)
    (csq now : ℕ) (s : Stream)
    → p.latitude.micro < 4294967296
    → p.longitude.micro < 4294967296
    → IsU16 p.altitude
    → IsU16 p.speed
    → IsU16 p.heading
    → f.msg_id ≡ msg_location_report
    → f.body ≡ build_location_body p t csq
    → a.write_ok ≡ true
    → report_phone cfg a sid f w ≢ []
    → let phone = report_phone cfg a sid f w in
      (x : StreamEntry) × ((dispatch cfg a sid f w).pending
        ≡ w.pending ++ publish_location phone (meant p t csq) ∷ [])
      × (add_location s now phone (meant p t csq) ≡ record {
        stream = s.stream_key;
        max_len = s.max_len;
        approx = true;
        values = of_location x;
      })
      × Arrived p phone now x
unfolding emit add_location
report_arrives cfg a sid f w p t csq now s hlat hlon halt hspeed hhead hid hb hw hp =
    let v = emit (inc (frames_received (msg_name f.msg_id))) w in
    let read =
      ap decode_location hb
      ∙ decode_location-build_location_body p t csq hlat hlon halt hspeed hhead in
    let phone = report_phone cfg a sid f w in
    (
      location_entry now phone (meant p t csq),
      ap (λ (u : World). u.pending) (dispatch_location cfg a sid f w hid)
          ∙ (handle_location_publishes cfg a sid f v (meant p t csq) hw hp read).1,
      refl,
      entry-Arrived p t csq now phone,
    )
