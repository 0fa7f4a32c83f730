-- ===== src/Prelude/Tables.antt =====
-- SQL tables as lists of rows: SELECT, COUNT, UPDATE, DELETE and ORDER BY over a Boolean WHERE.
mod Defs
mod Laws
mod Firsts
mod Sorting
pub use Defs.{
  select, count_where, update_where, delete_where, first_where, insert_by, sort_by, insert_desc,
  sort_desc,
}
pub use Laws.*
pub use Firsts.*
pub use Sorting.*
