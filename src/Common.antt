-- ===== src/Common.antt =====
-- crates/common: the error type and the domain models that every service shares. Identifiers are
-- numbers that are only compared, a time is a number of seconds, and a formatted text is the list
-- of the pieces that it is formatted from.
mod Values
mod Errors
mod Status
mod Models
mod Requests
mod Response
pub use Values.*
unfoldable pub use Errors.*
unfoldable pub use Status.*
unfoldable pub use Models.*
unfoldable pub use Requests.*
unfoldable pub use Response.*
