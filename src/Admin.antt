-- ===== src/Admin.antt =====
-- web/admin/src: the admin site. A JavaScript string is the list of its code units, a `ref` a field of
-- the component's record, and an `await` cuts a function in two: what it does before, and what it does
-- when the request has ended, which other calls may precede.
pub mod TimeSeries
pub mod Polling
pub mod Timers
pub mod Devices
pub mod Search
pub mod Locales
pub mod ClusterPage
pub mod Stats
pub mod Api
pub mod Metrics
pub mod Views
mod Runs
