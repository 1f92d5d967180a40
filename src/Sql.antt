-- ===== src/Sql.antt =====
-- internal/mysqldb: the SQL text and the arguments of an ordinary read.
pub mod Failure
pub mod Expr
pub mod Filter
pub mod Where
pub mod Columns
pub mod Select
pub mod Marks
pub mod Known
pub mod Values
