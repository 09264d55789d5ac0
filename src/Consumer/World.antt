-- ===== src/Consumer/World.antt =====
-- What the consumer of hm6/consumer/main.py changes, and what the surroundings decide while it
-- processes one message.
use service_oriented_archite.Base.{ℕ, String, Bool, Option, List, []}
use service_oriented_archite.Python.Exception.{Exn}
use service_oriented_archite.Python.Base64.{Bytes}
use service_oriented_archite.Python.Value.{Value}
use service_oriented_archite.Cassandra.Tables.{Db, empty_db}
use service_oriented_archite.Cassandra.Client.{Delivery}

pub record Message : Type 0 where
  pub value : Option Bytes
  pub topic : String
  pub partition : ℕ
  pub offset : ℕ
  pub key : Option Bytes

-- `error_reason`: the text of an exception, or one of the two texts of main.py.
pub data ErrorReason : Type 0 where
  exception : Exn → ErrorReason
  missing_id_or_type : ErrorReason
  unknown_event_type : String → ErrorReason

-- The value whose JSON text is produced to the DLQ topic, and its key.
pub record Letter : Type 0 where
  pub original_event : Value
  pub error_reason : ErrorReason
  pub error_code : String
  pub failed_at : ℕ
  pub topic : String
  pub partition : ℕ
  pub offset : ℕ
  pub key : Option Bytes

-- A committed offset: the next one to read.
pub record Commit : Type 0 where
  pub topic : String
  pub partition : ℕ
  pub offset : ℕ

-- An increment of a counter of hm6/consumer/metrics.py, or an observation of its histogram.
pub data Metric : Type 0 where
  processed : String → Metric
  failed : String → String → Metric
  skipped : String → Metric
  write_error : Metric
  observed : String → Metric

-- The latest letters, commits and increments stand first.
pub record World : Type 0 where
  pub db : Db
  pub letters : List Letter
  pub commits : List Commit
  pub metrics : List Metric
  pub kafka_connected : Bool
  pub cassandra_connected : Bool

abbrev pub start : Bool → World
start connected = record {
  db = empty_db;
  letters = [];
  commits = [];
  metrics = [];
  kafka_connected = connected;
  cassandra_connected = connected;
}

-- Which reads are answered, what becomes of the mark and of the batch, whether the producer of the
-- DLQ takes a letter, whether the commit goes through, the clock, and what `str` makes of a value that
-- is no text.
pub record Env : Type 0 where
  pub zone_answers : String → String → Bool
  pub order_answers : String → Bool
  pub mark : Delivery
  pub batch : Delivery
  pub dlq_accepts : Bool
  pub commit_accepted : Bool
  pub now : ℕ
  pub printed : Value → String

-- How a call ends: it returns, or an exception leaves it.
pub data Exit : Type 0 where
  returned raised : Exit
