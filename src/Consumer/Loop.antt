-- ===== src/Consumer/Loop.antt =====
-- `_consume_loop` of hm6/consumer/main.py over the results of its polls; the list ends where
-- `_stop` has cleared `_running`.
use service_oriented_archite.Base.{true, false, List, [], ◌∷◌}
use service_oriented_archite.Consumer.World.{Message, World, Env, Exit, returned, raised}
use service_oriented_archite.Consumer.Deserialize.{Avro}
use service_oriented_archite.Consumer.Process.{process_one}

pub data Poll : Type 0 where
  nothing partition_eof kafka_error : Poll
  received : Env → Message → Poll

-- One round of the loop.
unfoldable pub poll_once : Avro → Poll → World → World × Exit
unfolding process_one
poll_once avro nothing w = (w, returned)
poll_once avro partition_eof w = (w, returned)
poll_once avro kafka_error w = (record w { kafka_connected = false }, returned)
poll_once avro (received env msg) w = process_one avro env msg (record w { kafka_connected = true })

-- An exception ends the loop.
unfoldable pub go_on : (World → World × Exit) → World × Exit → World × Exit
go_on loop (w, returned) = loop w
go_on loop (w, raised) = (w, raised)

unfoldable pub consume_loop : Avro → List Poll → World → World × Exit
unfolding poll_once go_on
consume_loop avro [] w = (w, returned)
consume_loop avro (p ∷ rest) w = go_on (consume_loop avro rest) (poll_once avro p w)
