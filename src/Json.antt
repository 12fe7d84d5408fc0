-- ===== src/Json.antt =====
-- The three JSON string writers, `append_json_string` of src/runtime/error.cpp (module `Runtime`), of
-- include/pb/core/export_json.hpp (module `Graph`) and of include/pb/runtime/trace.hpp (module
-- `Trace`), and a reader for JSON strings. A buffer that
-- is only appended to is the concatenation of what is appended to it.
mod Reader
mod RoundTrip
pub use Reader.{Mode, plain, read_string}
pub use RoundTrip.*
pub mod Runtime
pub mod Graph
pub mod Agree
pub mod Trace
pub mod Divergence
