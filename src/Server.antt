-- ===== src/Server.antt =====
-- The tables that the API reads and writes (murano/db/models.py: Environment, Session, Task,
-- Status) and the tasks sent to the engine, as one state; the states of murano/services/states.py;
-- and the queries of the services. A row holds its JSON text as the value that it stands for.
mod Rows
pub mod Exec
pub mod Tables
pub mod Sql
pub mod Rules
pub mod Atomic
pub mod Counts
pub mod Sound
pub use Rows.*
