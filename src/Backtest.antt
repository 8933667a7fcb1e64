-- ===== src/Backtest.antt =====
-- python/backtest/engine.py: the replay of signals against quotes, and the microstructure engine.
-- `Market` has the data, `Replay` the class `ReplayBacktest`, `Book` the order book, and `Engine`
-- the class `MicrostructureEngine`. What the code keeps in a `float` is a value of the parameter F.
pub mod Tests
pub mod Market
pub mod Replay
pub mod Book
pub mod Engine
pub mod Orders
pub mod Simulation
