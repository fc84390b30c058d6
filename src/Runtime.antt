-- ===== src/Runtime.antt =====
-- What Python and the JSON columns give the program: values, their truth, and exceptions.
mod Value
mod Error
pub use Value.*
pub use Error.*
