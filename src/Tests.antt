-- ===== src/Tests.antt =====
-- The theorems at concrete inputs, and runs of the definitions.
mod Tables
mod Strings
mod Caches
mod Lists
mod Sessions
mod Paths
mod Prompts
mod Endpoints
mod Logins
