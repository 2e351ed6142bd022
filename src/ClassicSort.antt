-- ===== src/ClassicSort.antt =====
-- classic_sort/: the six sorts of classic_sort/src/classic_sort.c.
pub mod Memory
pub mod Shift
pub mod Spec
pub mod Bubble
pub mod Select
pub mod Insert
pub mod Shell
pub mod Quick
pub mod Merge
pub mod Unique
pub mod Agreement
pub mod Driver
mod Tests
