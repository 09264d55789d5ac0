-- ===== src/Lib.antt =====
-- Verification of the Python services of this repository: the warehouse, hm6/consumer and
-- hm6/producer, and the movie pipeline, hm5/producer and hm5/aggregation.
--
-- The warehouse. Events about stock and orders are read from a Kafka topic, decoded, handed to the
-- handler of their type, which reads Cassandra and returns the statements of a batch, then marked
-- as processed, written, and committed; what cannot be handled goes to a dead letter queue.
--
-- Cassandra: hm6/consumer/cassandra_client.py over hm6/cassandra/schema.cql. Tables has the rows,
-- the prepared statements as constructors and what each does (`apply`); Client the reads, the
-- conditional mark and the batch; Executed what a write can come to; Rows which row a statement
-- writes, and Reordered a batch in another order where each row is written once.
-- A write is answered, refused, or lost: applied without an answer (`Delivery`).
-- Handlers: hm6/consumer/handlers.py. Zone has its helpers, Products the handlers of one or two
-- zones, Orders those of orders, Jsonable `_jsonable`, and Handlers itself the table `HANDLERS`.
-- Sound has the invariant of the stock, Effects what the handlers write, Stock and Changes what the
-- writes do to the stock, Keeps the batches under the invariant, Newer the event times of the
-- zones, Dispatch a split on `HANDLERS`, Steps and Accepts the conditions under which an event is
-- accepted, Local what a handler reads of the tables, Once and Reorders the rows that a batch
-- writes, and Inventory what a batch does, handler by handler.
-- Consumer: World is what the consumer changes and what its surroundings decide for one message;
-- Deserialize is hm6/consumer/schema_evolution.py, Dlq hm6/consumer/dlq.py, Process `_process_one`
-- and `_commit_offset` of hm6/consumer/main.py, cut where the code branches on a result, and Loop
-- `_consume_loop`; Main is the start and end of the process and the handler of
-- hm6/consumer/health.py, by the gauges that they set and read, and Lag the thread that measures
-- the lag. Outcome relates a call to the ways in which it may end; Safety, Times, Idempotence,
-- Redelivery, Replay, Written, Commits and Letters build on it, and Steps and Inventory make the
-- loop a run of the batches of its events. EventWrites, New and
-- Interleave are about two events in either order. Degraded is about the health of the
-- consumer, Lags about its lag.
-- Publisher: hm6/producer/main.py. Registry is `register_schemas`, Demo `send`, `run_demo` and
-- `main`, Latest what the files of one record come to, and Registered what the registry is asked
-- and the map it yields. Sends is what the demo leaves in the buffer; Deliveries, Arrivals,
-- Consumed, Stages and Events take it through the consumer, and EndToEnd puts the two programs
-- together.
-- Python: what the code uses of the language and its standard library: exceptions, decimal text,
-- times, base64, the values of a decoded event, and the answers of an endpoint. Base: equality,
-- tests, integers and tables.
--
-- The movies. A generator makes up the events of people who watch movies, a producer sends them,
-- and a daily job counts and ranks the movies.
-- Movies: Events is hm5/producer/app/schemas.py, Producer the retries of
-- hm5/producer/app/producer.py `send`, Api the endpoints of hm5/producer/app/routes.py, Generator
-- hm5/producer/app/generator.py; Follows says which sequences of events a person may have and
-- Protocol what the generator sends, Retries how `send` ends, and Published what an endpoint answers
-- then.
-- Aggregation: Queries is the SQL of hm5/aggregation/app/clickhouse_queries.py over the events that
-- ClickHouse holds, Ranking the ranking of hm5/aggregation/app/postgres_writer.py, Scheduler
-- `run_aggregation` of hm5/aggregation/app/scheduler.py over the tables of the writer, with what
-- the queries, writes and exports of a day come to as a parameter, `Parts`; Export is
-- `export_parquet` of hm5/aggregation/app/s3_exporter.py, where an upload is answered, refused, or
-- lost as a write of Cassandra is, and Routes hm5/aggregation/app/routes.py.
-- Totals and Counts say what the queries count, Top what LIMIT leaves, Order what the ranking
-- yields, Runs how a run ends, Upserts and Stored what it writes, EndToEnd puts the queries and the
-- writes together, Unwatched the generator and the queries, and Answers the endpoints.
--
-- Tests: runs on small inputs.
--
-- The Avro deserializer is a parameter, a function that raises or yields None or a record. The
-- answers of Cassandra and Kafka and the clock are the fields of `Env`, free in every theorem that
-- does not ask for answers. The Avro serializer, the Schema Registry and the buffer of the producer
-- of hm6/producer are parameters too, `Broker` and `Registry`, and what `uuid` and the clock yield
-- is a `Draw`; that a deserializer reads back an event that was serialized under the schema that
-- the registration kept for its record, one with all the fields of the event, is the hypothesis
-- `Decodes` of Publisher.EndToEnd. The events of a theorem are any records; a field of a type that
-- no schema of hm6/schemas admits raises where a handler reads it, an id included, which is read
-- before it is used; a supplier, a product or a zone that is null or missing is None. An event type
-- that is no text is looked up as it is: one that cannot be hashed, a list or a dict, ends the loop
-- by an exception, and any other is unknown, with the text that `str` prints, `Env.printed`, in its
-- letter. The loop is a list of polls, so nothing here runs on fuel. Times are whole milliseconds
-- in the warehouse and whole seconds for the movies. The random choices of a round of the generator
-- are a draw, free but for the bound that `randint(30, 300)` documents, and the attempts of the
-- producer are a function, free as well.
--
-- A quantity is any integer; one beyond the 64 bits of its column, which the driver does not take,
-- belongs to a batch that is refused.
--
-- What ClickHouse chooses, its estimate `uniq` and the order of rows with as many views, is the
-- parameter `Engine`; `IsDocumented` says that it sorts the rows of a query, and Tests has an
-- engine that does. A date is a number of days since 1970 there. The retries of tenacity are part
-- of what a call comes to.
--
-- Not modelled: logging, the sleeps and delivery callbacks of the producers, the HTTP servers, the
-- values of metrics other than their increments and the gauges, the expiry of processed_events
-- after 30 days and of movie_events after 90, concurrent writers of one table, the Parquet text of
-- an export, the creation of its bucket, and the other programs of the repository.
pub mod Base
pub mod Publisher
pub mod Python
pub mod Cassandra
pub mod Handlers
pub mod Consumer
pub mod Movies
pub mod Aggregation
pub mod Tests
