-- ===== src/Db.antt =====
-- core/db/postgres: connections, their pool with its circuit breaker, transactions and SQL texts.
pub mod Breaker
pub mod Connection
pub mod Pool
pub mod SqlBuilder
pub mod Tests
