-- ===== src/Endpoints.antt =====
-- Endpoints of a federation entity, under src/fedservice/entity/server/.
pub mod Listing
pub mod Listed
pub mod Resolve
