-- ===== src/Types.antt =====
-- src/shared/types.ts: the records that the parts exchange, and the refinements that their zod
-- schemas check. A time is the number of milliseconds since 1970 that its ISO text shows: those
-- texts, as `toISOString` writes them, are ordered as the numbers are. The other numbers of the
-- records are not negative and are naturals (megabytes, milliseconds, percents), but for the
-- scheduler's weight. A field `data` is spelled `details`, since `data` is a word of the language.
mod Enums
mod Provider
mod Host
mod Session
mod State
pub mod Schema
pub mod Platform
pub use Enums.*
pub use Provider.*
pub use Host.*
pub use Session.*
pub use State.*
