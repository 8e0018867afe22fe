-- ===== src/Ioc.antt =====
-- PlatIF_IOC: communication between objects.
pub mod Api
pub mod Cache
pub mod Conles
pub mod Course
pub mod Effect
pub mod EvtId
pub mod Lock
pub mod Mailbox
pub mod Module
pub mod Post
pub mod Scenario
pub mod Thread
