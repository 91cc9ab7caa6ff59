-- ===== src/Runtime.antt =====
-- internal/runtime: the primitives that the generated rules call.
pub mod View
pub mod Integer
pub mod Checksum
pub mod Ascii
pub mod Buffer
