-- ===== src/Fsd.antt =====
-- The file service of the modem, modem/ccci-userspace/fsd/ccci_fsd.c.
pub mod Wire
pub mod Path
pub mod Os
pub mod Handles
pub mod Cmpt
pub mod Finds
pub mod Op
pub mod Serve
pub mod Round
pub mod Descriptors
pub mod Reply
mod Examples
