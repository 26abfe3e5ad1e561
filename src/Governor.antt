-- ===== src/Governor.antt =====
-- The spend governor, services/spend-governor/src/spend_governor: caps, metering, rate windows,
-- escalations and the HTTP handlers over them. Money is whole cents, as in the source; an instant
-- is a number of microseconds since year 1, the earliest that Python's datetime can hold.
pub mod Cap
pub mod Actions
pub mod Window
pub mod Period
pub mod Store
pub mod Throttle
pub mod Limits
pub mod Resolve
pub mod Usage
mod Tests
mod StoreTests
mod UsageTests
