-- ===== src/Statement.antt =====
-- The payload of an entity statement, with the claims of `EntityStatement` (and `Constraints`,
-- `NamingConstraints`) of src/fedservice/message.py that the modelled code reads, and the trust chain
-- of src/fedservice/entity_statement/statement.py.
mod Chain
unfoldable pub use Chain.*
