-- ===== src/Py.antt =====
-- Python as the source uses it: exceptions as values, JSON values, text and times.
pub mod Result
pub mod Text
pub mod Value
pub mod Equality
pub mod Clock
pub mod Bindings
pub mod Json
pub mod Stateful
pub mod Printer
pub mod Chain
pub mod Table
pub mod Contains
