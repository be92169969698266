-- ===== src/Core.antt =====
-- The parts that the others rest on (src/core, src/transport/header_filter.cpp).
pub mod Budget
pub mod Sha256
pub mod Url
pub mod UpstreamUrl
pub mod HeaderFilter
