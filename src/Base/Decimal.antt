-- ===== src/Base/Decimal.antt =====
-- Integers and their decimal texts.
mod Format
pub mod RoundTrip
unfoldable pub use Format.{print_int, scan_int}
pub use Format.{max_int}
