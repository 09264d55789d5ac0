-- ===== src/Python.antt =====
-- What the consumer uses of Python: exceptions, the values of a decoded event, and the texts of
-- numbers, times and bytes.
pub mod Exception
pub mod Http
pub mod Decimal
pub mod Datetime
pub mod Base64
pub mod Value
pub mod Ensures
