-- ===== src/Lib.antt =====
-- esphome-alpha-hwr: the ESPHome component for a Grundfos ALPHA HWR pump over Bluetooth.
--
-- The pump speaks GENI: a telegram is a start byte, a length, two addresses, APDUs and a checksum.
-- `Transport` cuts a request into BLE chunks, puts notifications together to telegrams and gives each to the
-- command that it answers; builders and a parser make and read telegrams; small policies watch the link;
-- the schedule and limiter codecs turn objects of the pump into values and back. The parts are modelled one
-- by one, from components/alpha_hwr where nothing else is said:
--
--   Base                  shared tests on numbers, lists by native numbers, machine words, laws of `^`
--   Codec                 codec.cpp: the checksum with its table (Table), its shift register (Shift), big-endian numbers
--   Frame                 frame_builder.cpp and .h (Builder, Layout), frame_parser.cpp and .h (Parser), response_match.h (Match)
--   Transport             transport.cpp and .h: members and debts of late replies (State), send_command, reset and
--                         abandon_queue_ (Queue), try_dispatch_response (Dispatch), on_notification (Receive), loop (Loop)
--   Link                  link_watchdog.h, readiness_watchdog.h, initial_read_retry.h (Watchdog, Sampler), failure_hold.h
--                         (Hold), pairing_stall.h (Stall), session.cpp (Session), clock_sync_gate.h, subscribe_outcome.h,
--                         gap_security_policy.h and pump_schedule_ux.h (Gates)
--   Schedule              schedule_entry.h (Entry, Overlap), schedule_codec.cpp (Upload, Image, Hash),
--                         schedule_service.cpp and .h: single events (Events, Slots)
--   Control               control_service.cpp and .h: the cache of the pump and its writers
--   WriteOps              write_operation_service.cpp and .h: operations (State), resources (Keys), results (Report), the
--                         queue (Queue), submit_* (Submissions), the machines run_* and confirm_* of the commands (RunState,
--                         Modes, Config, Limits, Schedules, Events, Uploads) and their switch (Dispatch)
--   Dhw                   components/dhw_demand/dhw_demand_logic.h: ages of readings, the pump's state, the hold, sessions,
--                         and the verdict while the pump runs (PumpOn)
--   Floats, Thousandths   the float operations that the code relies on, and one instance of them for tests
--   Limiter               limiter.h
--   Dst                   dst_rule.h: the day that a transition names, and the pump's rule and its comparison (Rules)
--   Telemetry, Class7     telemetry_decoder.cpp and .h, class7_string.h
--
-- A function keeps its name; a member function takes the object and returns it changed, a member keeps its name
-- without the last underscore, and an enumerator is in lower case. Buffers are lists of bytes, machine words
-- native numbers with their wrap written out, a float is its 32-bit pattern in the codecs and a value of the interface Floats elsewhere, and
-- `millis()` is an argument `now`.
-- A callback is its number: `Transport` notes the events that the outside sees in `log`, and what a callback sends
-- while it runs is the parameter `react`, any function from its verdict to a list of commands. A callback does
-- nothing else to the transport here: it neither resets it nor registers a handler. Three loops run on fuel: the
-- drain loop of `abandon_queue_`, whose 512 steps are the cap of the code, the search for the last weekday of a
-- month, whose five rounds are enough as a month has no more than 31 days, and the search for the next layer of an
-- upload to confirm, which has five layers.
--
-- A write operation is a machine of handlers. Each takes the cache of `ControlService`, the operation's fixed part
-- (Ticket) and its mutable part (Work), and either waits for what it has asked of the other services or settles with
-- a status; a handler's arguments before those are what the other services answer. `submit_`, `finish_` and
-- `start_front_` move operations through the queue. What callers and clients are told is the list `outputs`,
-- what is asked of other services and of the scheduler the list `requests`. A scheduler is wired, as in production.
-- A service that answers at once is modelled as one that answers next. The phase DONE is the operation's absence
-- from the queue, since `finish_` takes it out at once. A detail is a value that names its text and its numbers.
-- The arithmetic of floats is an interface, with no law assumed of it.
--
-- The files beside a part's definitions are named for what they prove; Examples holds runs on fixed data.
--
-- Not modelled: log lines and texts; submissions from within a result callback; the frames that the services send
-- for a write, the setters of ControlService, the layers of ScheduleService, the services of time, history, event
-- log and telemetry, with the probing of the time zone; the component around the dhw_demand logic, the BLE
-- connection manager, and the wiring to ESPHome.
-- A frame that declares more than it has, and a read past a buffer, are as the code's guards leave them; a read
-- that the guards do not exclude gives 0.
pub mod Base
pub mod Codec
pub mod Frame
pub mod Transport
pub mod Class7
pub mod Control
pub mod Dhw
pub mod Dst
pub mod Floats
pub mod Limiter
pub mod Link
pub mod Schedule
pub mod Telemetry
pub mod Thousandths
pub mod WriteOps
