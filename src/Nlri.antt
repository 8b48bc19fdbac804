-- ===== src/Nlri.antt =====
-- pkg/unicast and pkg/l3vpn: the prefixes of the MP attributes, with their label stacks.
pub mod LabelStack
pub mod Unicast
pub mod L3Vpn
