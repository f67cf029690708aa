-- ===== src/Tests.antt =====
-- Runs of the model on concrete data, and the theorems at such data.
mod Policies
mod Chains
mod Federation
mod Endpoints
mod Collecting
mod Serving
mod World
mod Trawling
mod Entities
