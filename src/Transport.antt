-- ===== src/Transport.antt =====
-- components/alpha_hwr/transport.h and transport.cpp: one command at a time is cut into BLE chunks, the
-- notifications of the pump are put together to telegrams, and each telegram is given to the command
-- that it answers. Time is `millis()`, an argument of each operation; what a callback does to the
-- transport while it runs is the commands that it sends, the parameter `react` of each module.
pub mod State
pub mod Queue
pub mod Dispatch
pub mod Receive
pub mod Loop
pub mod Order
pub mod Fifo
pub mod Claims
mod Examples
pub mod WellFormed
pub mod Keeping
pub mod Receiving
pub mod Assembly
pub mod Abandon
pub mod Reach
pub mod Fragments
pub mod Sending
pub mod Verdict
pub mod Debt
pub mod Timeout
pub mod Exchange
