-- ===== src/Itch.antt =====
-- The ITCH feed of python/connectivity/itch_handler.py: bytes, messages, packets, and the order book
-- that is kept from the messages.
pub mod Tests
pub mod Bytes
pub mod Messages
pub mod Mold
pub mod Tracker
