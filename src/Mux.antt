-- ===== src/Mux.antt =====
-- The AT multiplexer of the modem, modem/mux/mindone_mux.c.
pub mod Crc
pub mod Frame
pub mod State
pub mod Session
pub mod Loop
pub mod Channels
pub mod Chat
pub mod Life
mod Examples
