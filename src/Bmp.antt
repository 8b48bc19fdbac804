-- ===== src/Bmp.antt =====
-- pkg/bmp: the BMP messages of RFC 7854.
pub mod CommonHeader
pub mod PeerHeader
pub mod Info
pub mod PeerUp
pub mod RouteMonitor
