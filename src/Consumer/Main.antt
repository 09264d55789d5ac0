-- ===== src/Consumer/Main.antt =====
-- The start and the end of `main_async` of hm6/consumer/main.py, `connect`, `close` and `healthcheck` of
-- hm6/consumer/cassandra_client.py, and the handler of hm6/consumer/health.py: the gauges
-- `kafka_connected` and `cassandra_connected`, which other processes read through `/health`.
use service_oriented_archite.Base.{ℕ, String, Bool, true, false, ◌&&◌, List, if◌then◌else◌}
use service_oriented_archite.Consumer.World.{World, Exit, returned, raised}
use service_oriented_archite.Consumer.Deserialize.{Avro}
use service_oriented_archite.Consumer.Loop.{Poll, consume_loop}

-- `connect`, which sets the gauge if nothing raises before it.
unfoldable pub connect : Bool → World → World × Exit
connect true w = (record w { cassandra_connected = true }, returned)
connect false w = (w, raised)

unfoldable pub close : World → World
close w = record w { cassandra_connected = false }

-- `healthcheck`, by whether its query is answered.
unfoldable pub healthcheck : Bool → World → World × Bool
healthcheck answered w = (record w { cassandra_connected = answered }, answered)

-- `finally`: what closing the consumer and flushing the DLQ raise is dropped.
unfoldable pub shut_down : World × Exit → World × Exit
unfolding close
shut_down (w, exit) = (close (record w { kafka_connected = false }), exit)

-- From the connection on.
unfoldable pub after_connect : Avro → List Poll → World × Exit → World × Exit
unfolding shut_down
after_connect avro polls (w, raised) = (w, raised)
after_connect avro polls (w, returned) =
    shut_down (consume_loop avro polls (record w { kafka_connected = true }))

unfoldable pub main_async : Avro → Bool → List Poll → World → World × Exit
unfolding connect after_connect
main_async avro connects polls w = after_connect avro polls (connect connects w)

pub record Health : Type 0 where
  pub code : ℕ
  pub status : String
  pub kafka : Bool
  pub cassandra : Bool

unfoldable pub health_handler : World → Health
health_handler w =
    if w.kafka_connected && w.cassandra_connected
    then record { code = 200; status = "ok"; kafka = true; cassandra = true }
    else record {
      code = 503;
      status = "degraded";
      kafka = w.kafka_connected;
      cassandra = w.cassandra_connected;
    }
