-- ===== src/Tests.antt =====
-- Examples: the theorems at concrete inputs.
mod Fixtures
mod Admitting
mod Opening
mod Running
mod Sealing
mod Configuring
mod Starting
mod Working
mod Living
mod Asking
mod Linting
