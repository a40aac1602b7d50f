-- ===== src/Wire/Laws.antt =====
-- What a type's passage through an archive promises, and how the promise carries over to the
-- composite operators.
pub mod Defs
pub mod Combinators
pub mod Scalars
pub mod Elements
pub mod Sequences
pub mod Points
pub mod Limits
