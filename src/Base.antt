-- ===== src/Base.antt =====
-- pkg/base: what the decoders of several address families share.
pub mod Label
pub mod Rd
pub mod Tlv
pub mod Route
