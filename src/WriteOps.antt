-- ===== src/WriteOps.antt =====
-- `components/alpha_hwr/write_operation_service.h` and `.cpp`: the queue of write operations, each of
-- which ends in one terminal event, and the state machine of each command.
pub mod State
pub mod Keys
pub mod Report
pub mod Queue
pub mod Accounting
pub mod Keeping
pub mod Order
pub mod Lookup
pub mod Ordering
pub mod Reach
pub mod Settling
pub mod Finishing
pub mod Endings
pub mod RunState
pub mod Modes
pub mod Ladder
pub mod Config
pub mod Limits
pub mod Schedules
pub mod Events
pub mod Uploads
pub mod Layers
pub mod Silence
pub mod Uploaded
pub mod Uploading
pub mod Dispatch
pub mod Verdicts
pub mod Submissions
mod Examples
mod Runs
