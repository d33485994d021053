-- ===== src/Kube.antt =====
-- The cluster as the controller sees it: the objects that it reads and writes, the calls that it makes
-- and the answers that it gets.
mod Objects
mod Http
mod Client
pub mod Exec
pub use Objects.*
unfoldable pub use Objects.{service_port_or_8080}
pub use Http.*
pub use Client.*
