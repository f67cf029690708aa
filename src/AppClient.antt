-- ===== src/AppClient.antt =====
-- Clients of applications in a federation, under src/fedservice/appclient/.
pub mod Registration
