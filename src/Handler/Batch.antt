-- ===== src/Handler/Batch.antt =====
-- The loop over the items of a batch report.
use server_jt.Base.{
  ℕ, zero, suc, ◌+◌, ◌*◌, ◌<◌, ◌≡◌, if◌then◌else◌, refl, sym, ap, ◌∙◌, Bool, true, false, List, [],
  ◌∷◌, ◌++◌, arith, ltb, take, length, All, length-append, take-append_left, drop-append_left,
  append_assoc, append-nil, ◌/◌, ◌%◌,
}
use server_jt.Protocol.Types.{Bytes, result_ok}
use server_jt.Protocol.Frame.{Frame}
use server_jt.Protocol.Location.{LocationReport, Decoded, decoded, body_too_short, decode_location}
use server_jt.Protocol.Reader.{put_u16}
use server_jt.Session.{ack, send}
use server_jt.World.{World, Task, publish_location, emit, go, put_session}
use server_jt.Configuration.{Config}
use server_jt.Actions.{Answers, ack_to}
use server_jt.Handler.{handle_batch_location, batch_item, batch_loop, batch_body}

-- What ends the loop: fewer than two bytes, or a length that overruns the body.
abbrev pub IsCut : Bytes → Type 0
IsCut [] = Unit {0}
IsCut (x ∷ []) = Unit {0}
IsCut (x ∷ y ∷ r) = length r < x * 256 + y

-- The wire form of a batch: each item behind its length.
pub wire_items : List Bytes → Bytes
wire_items [] = []
wire_items (b ∷ bs) = put_u16 (length b) ++ (b ++ wire_items bs)

two_bytes : (v : ℕ) → v < 65536 → v / 256 % 256 * 256 + v % 256 ≡ v
two_bytes v h = omega arith

-- The report of an item that decodes, under a phone number, and those of a list of items.
pub item_report : Bytes → Decoded LocationReport → List Task
item_report phone (body_too_short n) = []
item_report phone (decoded loc) = publish_location phone loc ∷ []

pub reports : Bytes → List Bytes → List Task
reports phone [] = []
reports phone (b ∷ bs) = item_report phone (decode_location b) ++ reports phone bs

if_true : (b : Bool) → b ≡ true → (v w : World) → (if b then v else w) ≡ v
if_true b h v w = rw h refl

module _ (cfg : Config) (a : Answers) (sid : ℕ) (f : Frame) where
  -- The items handled one after the other.
  pub handle_items : List Bytes → World → World
  handle_items [] w = w
  handle_items (b ∷ bs) w = handle_items bs (batch_item cfg a sid f (decode_location b) w)

  batch_loop-item :
      (n : ℕ) (b rest : Bytes) (w : World)
      → length b < 65536
      → batch_loop cfg a sid f (suc n) (put_u16 (length b) ++ (b ++ rest)) w
        ≡ batch_loop cfg a sid f n rest (batch_item cfg a sid f (decode_location b) w)
  unfolding batch_loop put_u16
  batch_loop-item n b rest w h =
      rw (two_bytes (length b) h, fits, take-append_left b rest, drop-append_left b rest)
    where
      fits : ltb (length (b ++ rest)) (length b) ≡ false
      fits = ground (arith, length-append b rest)

  batch_loop_ends : (n : ℕ) (t : Bytes) (w : World) → IsCut t → batch_loop cfg a sid f n t w ≡ w
  unfolding batch_loop
  batch_loop_ends zero t w h = refl
  batch_loop_ends (suc n) [] w h = refl
  batch_loop_ends (suc n) (x ∷ []) w h = refl
  batch_loop_ends (suc n) (x ∷ y ∷ r) w h = ground arith

  no_rounds : (r : Bytes) (w : World) → batch_loop cfg a sid f 0 r w ≡ w
  unfolding batch_loop
  no_rounds r w = refl

  -- A batch of well-formed items handles the first `count` of them in order, and what stands behind
  -- the last one ends the loop without harm: nothing, or an item whose length overruns the body.
  pub batch_loop-wire_items :
      (n : ℕ) (bs : List Bytes) (t : Bytes) (w : World)
      → All (λ b. length b < 65536) bs
      → IsCut t
      → batch_loop cfg a sid f n (wire_items bs ++ t) w ≡ handle_items (take n bs) w
  unfolding wire_items handle_items put_u16
  batch_loop-wire_items zero bs t w h c = no_rounds (wire_items bs ++ t) w
  batch_loop-wire_items (suc n) [] t w h c = batch_loop_ends (suc n) t w c
  batch_loop-wire_items (suc n) (b ∷ bs) t w h c =
      ap (λ r. batch_loop cfg a sid f (suc n) (put_u16 (length b) ++ r) w)
        (append_assoc b (wire_items bs) t)
      ∙ batch_loop-item n b (wire_items bs ++ t) w h.0
      ∙ batch_loop-wire_items n bs t (batch_item cfg a sid f (decode_location b) w) h.1 c

  item-pending :
      (d : Decoded LocationReport) (w : World)
      → (batch_item cfg a sid f d w).pending ≡ w.pending ++ item_report (w.sessions sid).phone d
  unfolding batch_item item_report emit go
  item-pending (body_too_short n) w = sym (append-nil w.pending)
  item-pending (decoded loc) w = refl

  item-phone :
      (d : Decoded LocationReport) (w : World)
      → ((batch_item cfg a sid f d w).sessions sid).phone ≡ (w.sessions sid).phone
  unfolding batch_item emit go
  item-phone (body_too_short n) w = refl
  item-phone (decoded loc) w = refl

  handle_items-pending :
      (bs : List Bytes) (w : World)
      → (handle_items bs w).pending ≡ w.pending ++ reports (w.sessions sid).phone bs
  unfolding handle_items reports
  handle_items-pending [] w = sym (append-nil w.pending)
  handle_items-pending (b ∷ bs) w =
      let d = decode_location b in
      handle_items-pending bs (batch_item cfg a sid f d w)
      ∙ ap (λ p. (batch_item cfg a sid f d w).pending ++ reports p bs) (item-phone d w)
      ∙ ap (λ t. t ++ reports (w.sessions sid).phone bs) (item-pending d w)
      ∙ append_assoc w.pending (item_report (w.sessions sid).phone d)
          (reports (w.sessions sid).phone bs)

  acked-same :
      (w : World) → ((ack_to sid f result_ok w).sessions sid).phone ≡ (w.sessions sid).phone
  unfolding ack_to emit put_session ack send
  acked-same w = ground arith

  acked-pending :
      (bs : List Bytes) (w : World)
      → (ack_to sid f result_ok w).pending
          ++ reports ((ack_to sid f result_ok w).sessions sid).phone bs
        ≡ w.pending ++ reports (w.sessions sid).phone bs
  unfolding ack_to emit put_session
  acked-pending bs w = ap (λ p. w.pending ++ reports p bs) (acked-same w)

  batch_body-wire :
      (n kind : ℕ) (bs : List Bytes) (t : Bytes) (w : World)
      → n < 65536
      → All (λ b. length b < 65536) bs
      → IsCut t
      → batch_body cfg a sid f (put_u16 n ++ kind ∷ (wire_items bs ++ t)) w
        ≡ handle_items (take n bs) w
  unfolding batch_body put_u16
  batch_body-wire n kind bs t w hn h c =
      ap (λ k. batch_loop cfg a sid f k (wire_items bs ++ t) w) (two_bytes n hn)
      ∙ batch_loop-wire_items n bs t w h c

  -- A batch body, `count` and a kind before the items: if the acknowledgement is written, each of
  -- the first `count` items that decodes is published once, in order, under the session's phone
  -- number; items that do not decode are skipped.
  pub handle_batch_location_publishes :
      (n kind : ℕ) (bs : List Bytes) (t : Bytes) (w : World)
      → n < 65536
      → All (λ b. length b < 65536) bs
      → IsCut t
      → a.write_ok ≡ true
      → f.body ≡ put_u16 n ++ kind ∷ (wire_items bs ++ t)
      → (handle_batch_location cfg a sid f w).pending
        ≡ w.pending ++ reports (w.sessions sid).phone (take n bs)
  unfolding handle_batch_location
  handle_batch_location_publishes n kind bs t w hn h c hw hb =
      let w1 = ack_to sid f result_ok w in
      let wired =
        ap (λ r. batch_body cfg a sid f r w1) hb ∙ batch_body-wire n kind bs t w1 hn h c in
      ap (λ v. v.pending) (if_true a.write_ok hw (batch_body cfg a sid f f.body w1) w1 ∙ wired)
      ∙ handle_items-pending (take n bs) w1
      ∙ acked-pending (take n bs) w
