-- ===== src/Prelude/Map.antt =====
-- The containers of the standard library that the program keeps its state in: `std::map` with
-- integer keys in `Sorted`, `std::unordered_map` in `Hash`.
pub mod Sorted
pub mod Hash
