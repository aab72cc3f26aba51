-- ===== src/Frame.antt =====
-- GENI telegrams: `[start][length][DA][SA][class][head][...][CRC high][CRC low]`, where the length
-- byte counts what stands between itself and the checksum. The constants of
-- components/alpha_hwr/frame_builder.h and frame_parser.h.
pub mod Layout
pub mod Builder
pub mod Parser
pub mod Match
pub mod Sealed
pub mod RoundTrip
pub mod Bounds
pub mod Generic
mod Examples
