-- ===== src/Evt.antt =====
-- The event manager: PlatIF_EVT. Each child models one of its parts.
pub mod Id
pub mod Slots
pub mod Types
pub mod Oper
pub mod Queue
pub mod Psdb
pub mod Manager
pub mod Counter
pub mod Scenario
pub mod Worker
pub mod Busy
pub mod Locks
pub mod Case02
pub mod Case03
