-- ===== src/AppServer.antt =====
-- Servers of applications in a federation, under src/fedservice/appserver/: the registration of clients by
-- their trust chains.
pub mod Saved
pub mod Provider
pub mod Automatic
pub mod Explicit
pub mod Request
pub mod Register
