-- ===== src/Js.antt =====
-- The parts of the JavaScript language that the program's decisions rest on: values read from JSON,
-- property access, equality, decimal text and `BigInt`.
pub mod Json
pub mod Decimal
pub mod Integer
pub mod Text
pub mod Number
pub mod Double
pub mod Stream
pub mod Environment
