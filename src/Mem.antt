-- ===== src/Mem.antt =====
-- C memory: an object is a function from offsets to bytes, and so is a pointer into one, read
-- from where it points. What stands beyond an array's end are the bytes of whatever follows it.
mod Defs
pub mod Copy
pub mod Text
unfoldable pub use Defs.*
