-- ===== src/Policy.antt =====
-- Metadata policies: src/fedservice/entity/function/policy.py and policy_operator.py.
pub mod Combine
pub mod Operators
pub mod Apply
pub mod Gather
pub mod Chain
pub mod Along
