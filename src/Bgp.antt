-- ===== src/Bgp.antt =====
-- pkg/bgp: the BGP messages that BMP carries.
pub mod PathAttribute
pub mod AsPath
pub mod Texts
pub mod ExtCommunity
pub mod Attributes
pub mod Update
pub mod Nlri
pub mod MpReach
pub mod MpUnreach
pub mod MpNlri
pub mod Open
