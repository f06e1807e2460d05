-- ===== src/Bridge/Store.antt =====
-- `TaskStore` of store.py: SQLite tables as lists, each method as an action on them.
-- The state is what is committed. The rows stand in `Tables`, the methods in `Tasks`, `Events`,
-- `Requests` and `Restart`, and `Calls` joins those that write to one machine.
-- Payloads are texts, as the tables hold them: `json.dumps` runs before a transaction is opened,
-- and `json.loads` after it is closed.
pub mod Tables
pub mod Tasks
pub mod Events
pub mod Requests
pub mod Restart
pub mod Calls
pub mod Consistent
pub mod Moves
pub mod Limits
pub mod Interrupted
pub mod Answered
