-- ===== src/Cassandra.antt =====
-- hm6/consumer/cassandra_client.py over the tables of hm6/cassandra/schema.cql. A table is an
-- association list from its primary key; a prepared statement has a constructor with its
-- parameters, and means what its CQL text says. Whether a request is answered is the environment's
-- choice. The expiry of rows after 30 days is not modelled.
pub mod Tables
pub mod Client
pub mod Executed
pub mod Rows
pub mod Reordered
