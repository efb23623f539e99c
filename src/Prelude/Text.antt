-- ===== src/Prelude/Text.antt =====
-- Strings, with the library's test for equality.
pub use Prim.Native.String.{String, ◌++◌ as append}
pub use text.Mathlib.Text.{◌==◌ as str_eq}
