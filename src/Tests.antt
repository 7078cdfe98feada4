-- ===== src/Tests.antt =====
-- The theorems at concrete inputs.
mod Samples
mod Csv
mod Jobs
mod Auth
mod Budget
mod Users
mod Crypto
mod Config
mod Tenants
mod Web
mod Screens
mod Log
