-- ===== src/Tests/Handlers.antt =====
-- Runs of the dispatcher and its handlers (server/internal/handler/handler.go).
use server_jt.Base.{
  none, ℕ, suc, ◌≡◌, ◌⊎◌, ◌==◌, refl, true, false, some, List, [], ◌∷◌, ◌++◌, arith, take,
  if◌then◌else◌,
}
use server_jt.Base.Text.{ascii, same}
use server_jt.Protocol.Types.{Bytes, result_fail, msg_terminal_resp}
use server_jt.Protocol.Reader.{put_u16}
use server_jt.Protocol.Frame.{Frame}
use server_jt.Protocol.Extras.Loop.{wire}
use server_jt.Protocol.Location.Wire.{location_body, report_of}
use server_jt.Session.{new_session, authenticated, close, ack}
use server_jt.World.{
  inc, wrote, started, publish_location, location_reports, close_after, auth_violations,
  token_checked,
}
use server_jt.Registry.{found, validate_auth_token}
use server_jt.Registry.Map.{get}
use server_jt.Registry.Laws.{is_other}
use server_jt.Store.{no_rows}
use server_jt.Configuration.{Config, load}
use server_jt.Actions.{Answers}
use server_jt.Handler.{dispatch, handle_authentication, handle_location, handle_batch_location}
use server_jt.Handler.Replies.{writes, dispatch-replies}
use server_jt.Handler.Keeps.{dispatch_local}
use server_jt.Handler.Login.{
  login_phone, adopted, handle_authentication_accepts, handle_authentication_rejects,
}
use server_jt.Handler.Located.{report_phone, reply, sos_entry, handle_location_publishes}
use server_jt.Handler.Batch.{wire_items, reports, handle_batch_location_publishes}
use server_jt.Tests.Bodies.{fix, items, decode_fix}
use server_jt.Tests.Sessions.{phone, world}

abbrev cfg : Config
cfg = record (load (λ key. []) (λ d. none) (ascii "host")) {
  db_enabled = true;
  auth_token_prefix = ascii "auth:";
}

abbrev answers : Answers
answers = record {
  write_ok = true;
  token = found (ascii "secret");
  row = no_rows;
  insert_ok = true;
  nanos = 1700000000000000000;
  unix = 1700000000;
}

abbrev frame : ℕ → Bytes → Frame
frame id body = record {
  msg_id = id;
  phone = phone;
  seq_num = 5;
  body = body;
  is_subpackage = false;
  total_pkg = 0;
  pkg_seq = 0;
}

abbrev fix_body : Bytes
fix_body = location_body fix (wire items)

dispatch-replies_example : writes (dispatch cfg answers 0 (frame 0x0200 fix_body) world).trace ≡ (
    if (frame 0x0200 fix_body).msg_id == msg_terminal_resp
    then writes world.trace
    else suc (writes world.trace))
dispatch-replies_example = dispatch-replies cfg answers 0 (frame 0x0200 fix_body) world

dispatch_local_example :
    let w' = dispatch cfg answers 0 (frame 2 []) world in
    (w'.local ≡ world.local) × ((i : ℕ) → (i ≡ 0) ⊎ (w'.sessions i ≡ world.sessions i))
dispatch_local_example = dispatch_local cfg answers 0 (frame 2 []) world (omega arith)

abbrev login : Frame
login = frame 0x0102 (ascii "secret")

abbrev bad_login : Frame
bad_login = frame 0x0102 (ascii "guess")

handle_authentication_accepts_example :
    let w' = handle_authentication cfg answers 1 login world in
    ((w'.sessions 1).state ≡ authenticated)
    × ((w'.sessions 1).phone ≡ login_phone cfg answers 1 login world)
    × ((j : Bytes)
        → get j w'.local
          ≡ (if same (login_phone cfg answers 1 login world) j then some 1 else get j world.local))
    × ((i : ℕ)
        → (i ≡ 1)
          ⊎ (w'.sessions i ≡ (
              if is_other 1 i (get (login_phone cfg answers 1 login world) world.local)
              then close (world.sessions i)
              else world.sessions i)))
unfolding validate_auth_token same
handle_authentication_accepts_example =
    handle_authentication_accepts cfg answers 1 login world (ground arith)

handle_authentication_rejects_example :
    let w' = handle_authentication cfg answers 1 bad_login world in
    ((w'.sessions 1).state ≡ (world.sessions 1).state)
    × ((w'.sessions 1).phone ≡ login_phone cfg answers 1 bad_login world)
    × (w'.local ≡ world.local)
    × (w'.pending ≡ world.pending)
    × (w'.trace
        ≡ close_after 500 1
          ∷ inc auth_violations
          ∷ wrote 1
              (ack bad_login result_fail ((adopted cfg answers 1 bad_login world).sessions 1)).1
          ∷ token_checked (cfg.auth_token_prefix ++ bad_login.phone) bad_login.body
          ∷ world.trace)
    × ((i : ℕ) → (i ≡ 1) ⊎ (w'.sessions i ≡ world.sessions i))
unfolding validate_auth_token same
handle_authentication_rejects_example =
    handle_authentication_rejects cfg answers 1 bad_login world refl

handle_location_publishes_example :
    let w' = handle_location cfg answers 0 (frame 0x0200 fix_body) world in
    let to = report_phone cfg answers 0 (frame 0x0200 fix_body) world in
    (w'.trace
      ≡ started (publish_location to (report_of fix (wire items)))
        ∷ sos_entry (report_of fix (wire items)) (
            inc location_reports ∷ reply cfg answers 0 (frame 0x0200 fix_body) world ∷ world.trace))
    × (w'.pending ≡ world.pending ++ publish_location to (report_of fix (wire items)) ∷ [])
    × ((w'.sessions 0).last_location ≡ answers.nanos)
unfolding new_session same
handle_location_publishes_example =
    handle_location_publishes cfg answers 0 (frame 0x0200 fix_body) world
      (report_of fix (wire items)) refl (ground arith) decode_fix

-- Two items, of which the second is too short, and a byte behind them.
abbrev batch : List Bytes
batch = fix_body ∷ (1 ∷ []) ∷ []

abbrev batch_frame : Frame
batch_frame = frame 0x0704 (put_u16 2 ++ 0 ∷ (wire_items batch ++ 9 ∷ []))

handle_batch_location_publishes_example :
    (handle_batch_location cfg answers 0 batch_frame world).pending
    ≡ world.pending ++ reports (world.sessions 0).phone (take 2 batch)
unfolding location_body put_u16 wire server_jt.Protocol.Reader.put_u32
handle_batch_location_publishes_example =
    handle_batch_location_publishes cfg answers 0 batch_frame 2 0 batch (9 ∷ []) world (omega arith)
      (omega arith, (omega arith, tt)) tt refl refl
