-- ===== src/Venue.antt =====
-- The simulated venue of interfaces/venue: the order gateway, and the feeds of quotes and reports.
pub mod Tests
pub mod Gateway
pub mod Feeds
