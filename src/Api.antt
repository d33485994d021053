-- ===== src/Api.antt =====
-- api/v1alpha1: the custom resources as records. A Go pointer is an `Option`, a slice a `List`, a map
-- with text keys a `Dict`, a time a number of nanoseconds.
mod Spec
mod Status
mod Experiments
pub use Spec.*
pub use Status.*
pub use Experiments.*
