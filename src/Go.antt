-- ===== src/Go.antt =====
-- What the program uses of the Go language and its standard library: texts, numbers in texts,
-- headers, clocks, and the HTTP messages.
pub mod Strings
pub mod Conv
pub mod Header
pub mod Time
pub mod Http
pub mod Panic
