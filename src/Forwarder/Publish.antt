-- ===== src/Forwarder/Publish.antt =====
-- server/internal/forwarder/stream.go: the `XADD` of `PublishLocation` and of `PublishEvent`. The
-- payload of an event is the text that `json.Marshal` makes of it; an error of Redis is only logged.
use server_jt.Base.{ℕ, Bool, true}
use server_jt.Base.Int.{ℤ}
use server_jt.Protocol.Types.{Bytes}
use server_jt.Protocol.Location.{LocationReport}
use server_jt.Configuration.{Config}
use server_jt.Forwarder.{StreamEntry, location_entry}

pub record Stream : Type 0 where
  pub stream_key : Bytes
  pub max_len : ℤ

pub record EventEntry : Type 0 where
  pub event : Bytes
  pub phone : Bytes
  pub payload : Bytes
  pub published_at : ℕ

pub data Values : Type 0 where
  of_location : StreamEntry → Values
  of_event : EventEntry → Values

-- `redis.XAddArgs`.
pub record XAddArgs : Type 0 where
  pub stream : Bytes
  pub max_len : ℤ
  pub approx : Bool
  pub values : Values

-- The `NewStream` of `main`.
unfoldable pub new_stream : Config → Stream
new_stream cfg = record { stream_key = cfg.stream_key; max_len = cfg.stream_max_len }

unfoldable pub publish_location : Stream → ℕ → Bytes → LocationReport → XAddArgs
publish_location s now phone loc = record {
  stream = s.stream_key;
  max_len = s.max_len;
  approx = true;
  values = of_location (location_entry now phone loc);
}

unfoldable pub publish_event : Stream → ℕ → Bytes → Bytes → Bytes → XAddArgs
publish_event s now event phone payload = record {
  stream = s.stream_key;
  max_len = s.max_len;
  approx = true;
  values =
      of_event (record { event = event; phone = phone; payload = payload; published_at = now });
}
