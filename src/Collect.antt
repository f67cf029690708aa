-- ===== src/Collect.antt =====
-- Collecting trust chains: src/fedservice/entity/function/trust_chain_collector.py and the functions of
-- src/fedservice/entity/function/__init__.py around it.
pub mod Trees
pub mod Web
pub mod Run
pub mod Collector
pub mod Fine
pub mod Ends
pub mod Path
