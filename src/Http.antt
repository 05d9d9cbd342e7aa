-- ===== src/Http.antt =====
-- The HTTP library: src/fasterhttp.h and src/fasterhttp.c.
pub mod Body
pub mod Buffer
pub mod Environment
pub mod Exchange
pub mod HeaderLine
pub mod HeaderValue
pub mod KeepAlive
pub mod Parse
pub mod Query
pub mod Response
pub mod Status
pub mod Scan
pub mod StartLine
pub mod SplitUri
pub mod Transport
pub mod Types
