-- ===== src/Portfolio.antt =====
-- python/portfolio/portfolio.py: positions, fills, order checks and limits.
-- Quantities, prices in ticks, locates and times are Python integers; what the code keeps in a
-- `float` is a value of the parameter F. `State` has the data, `Fills` `apply_fill`, `Orders`
-- `validate_order`, `Factors` the factor model and `Snapshot` the report.
pub mod Tests
pub mod State
pub mod Sums
pub mod Factors
pub mod Fills
pub mod Orders
pub mod Snapshot
