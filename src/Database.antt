-- ===== src/Database.antt =====
-- The tables of libweasyl/models/tables.py that the modelled modules share, and how
-- weasyl/define.py runs actions on them. Every id is positive, and 0 stands for no id, as in the
-- source. Columns that no modelled operation reads are left out.
mod Tables
mod Actions
pub mod Retry
pub mod Keeps
pub use Tables.*
unfoldable pub use Actions.*
