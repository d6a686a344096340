-- ===== src/Config.antt =====
-- config/src/lib.rs: the committee and the protocol's parameters.
pub mod Committee
pub mod Stakes
pub mod Thresholds
pub mod Build
