-- ===== src/Lib.antt =====
-- A model of the Python code of Ito, a trading system for local simulation, with theorems about it.
--
-- The parts and their files:
--   Prelude     shared types: integers, lists, dicts in insertion order, results of code that raises,
--               a stable sort, and the interface Float of the operations on a `float`.
--   Portfolio   python/portfolio/portfolio.py. State has the data and `__init__`, Fills `apply_fill`,
--               Orders `validate_order`, Factors the factor model, and Snapshot `snapshot`. A client
--               asks `validate_order` before `apply_fill`, and both change one record Portfolio.
--   Backtest    python/backtest/engine.py. Replay is ReplayBacktest, Book the L2OrderBook, Engine,
--               Orders and Simulation the MicrostructureEngine, whose handlers change one record.
--   Itch        python/connectivity/itch_handler.py. Bytes has the packing, Messages the encoders and
--               the parser, Mold the packets, and Tracker the ItchOrderBookTracker.
--   Lease       interfaces/recovery/lease_store.py.
--   Venue       interfaces/venue: Gateway is the SimulatedOrderGateway, Feeds the two feeds with their
--               generators.
--   Custody     interfaces/custody/key_store.py: the key store, and Signing with the signer.
--   Reconcile   python/reconciliation/reconcile.py: `_index` and `compare`.
--   Journal     python/replay/replay.py: `validate`.
--   Routes      python/connectivity/route_recommendation.py: `recommend`.
--   Uncertain   python/ops_tools/reconcile_uncertain_orders.py: `reconcile_orders`.
--   Gates       scripts/operations/production_gate_simulations.py: Session is VenueSession, Hsm the
--               SimulatedHsm, and Runs the gates that use them.
--   HsmSimulator  python/operations/hsm_simulator.py; Envelope is the body of `encrypt` and `decrypt`.
--   Storage     The stores over SQLite: Durable is python/operations/durable_store.py, Checkpoint
--               interfaces/recovery/checkpoint_store.py. The statements that they execute on a table
--               are an interface with laws, and Memory has tables that meet them.
--   Backup      scripts/operations/backup_restore.py: the checks of paths, Within the walk up to the
--               root, and Restore the restoration from an archive.
--   Exporter    scripts/operations/health_report.py and python/operations/prometheus_exporter.py, which
--               renders its report; Json has the values that both read.
--   Release     interfaces/deployment/release.py and interfaces/fpga/evidence.py.
--
-- State is passed explicitly: a method takes the record of its object and returns its result with
-- the record after it, also where it raises after a change. An exception is a value of a Result.
-- Python's integers are ℤ, and natural numbers where the code makes no others (bytes, fields of
-- parsed messages, versions). Loops are recursion on the list they run over, or on their count, so
-- no fuel is needed; the digits of a number are written on fuel that is the number and one more,
-- each digit taking one, and the walk up from a path on fuel that is more than its parts. What the
-- code keeps in a `float` is a value of a parameter F with the operations that the code calls; the
-- theorems rely on no law of it but where a hypothesis names one, and the errors that Python raises
-- at the ends of the range of a float are left out. The hashes of the standard library, its random
-- bytes, clocks, JSON and SQLite are parameters, and so is what the file system makes of each round
-- of a restoration. A statement of SQLite may fail, and an integer beyond 64 bits makes it fail.
--
-- Not modelled: files, printing, argument parsing and pcap; the opening of the SQLite stores; the
-- configuration linter; the HTTP server of the exporter; the scripts that start processes or read a
-- checkout.
pub mod Prelude
pub mod Lease
pub mod Portfolio
pub mod Backtest
pub mod Itch
pub mod Journal
pub mod Venue
pub mod Gates
pub mod HsmSimulator
pub mod Storage
pub mod Backup
pub mod Exporter
pub mod Custody
pub mod Reconcile
pub mod Release
pub mod Routes
pub mod Uncertain
