-- ===== src/HttpPeek.antt =====
-- common/http_peek.h and common/http_peek.c: a look at the first lines of an HTTP message.
pub mod Chars
pub mod Scan
pub mod Eol
pub mod Parse
mod Tests
