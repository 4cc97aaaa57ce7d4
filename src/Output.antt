-- ===== src/Output.antt =====
-- internal/output: the ordered set of the columns that a table shows.
pub mod OrderedSet
