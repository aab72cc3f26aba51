-- ===== src/Schedule.antt =====
-- components/alpha_hwr/schedule_entry.h: one entry of the weekly schedule.
pub mod Entry
pub mod Overlap
pub mod Upload
pub mod Grid
pub mod Image
pub mod Hash
pub mod Events
pub mod Slots
mod Examples
