-- ===== src/Data.antt =====
-- The data of the control plane: migrations/*.sql, internal/repository/models.go and the row types
-- beside it, the state names of internal/service, and the message of internal/queue.
mod States
mod Rows
mod Tables
unfoldable pub use States.*
pub use Rows.*
pub use Tables.*
