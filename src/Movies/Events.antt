-- ===== src/Movies/Events.antt =====
-- hm5/producer/app/schemas.py. Identifiers are texts; a time is a number of seconds.
use service_oriented_archite.Base.{ℕ, String}

pub data EventType : Type 0 where
  view_started view_finished view_paused view_resumed liked searched : EventType

pub data DeviceType : Type 0 where
  mobile desktop tv tablet : DeviceType

pub record MovieEvent : Type 0 where
  pub event_id : String
  pub user_id : String
  pub movie_id : String
  pub event_type : EventType
  pub timestamp : ℕ
  pub device_type : DeviceType
  pub session_id : String
  pub progress_seconds : ℕ
