-- ===== src/Orm.antt =====
-- Tables of rows, as Django's ORM reads and writes them.
pub mod Table
