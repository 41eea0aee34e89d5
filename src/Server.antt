-- ===== src/Server.antt =====
-- What every service of the backend works with: API errors, and database calls that may fail.
mod Errors
pub mod Monad
pub mod Rules
pub use Errors.*
pub use Monad.*
