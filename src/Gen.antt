-- ===== src/Gen.antt =====
-- internal/gen: the rule bundle as the generator holds it, and the checks that refuse a bundle.
pub mod Limits
pub mod Model
pub mod Opcodes
pub mod Decode
pub mod Load
pub mod Loader
pub mod Steps
pub mod Expr
pub mod Prefixes
