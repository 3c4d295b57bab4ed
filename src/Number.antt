-- ===== src/Number.antt =====
-- The numbers of the program. `Number N` holds the operations that the source makes on a
-- JavaScript `number`; the type `N` stays a parameter, so that nothing rests on a particular
-- rounding. `IsIeee` holds the facts of IEEE 754 double arithmetic that theorems assume.
mod Defs
pub mod Fixed
pub use Defs.*
