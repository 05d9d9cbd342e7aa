-- ===== src/Server.antt =====
-- The server's own tables and choices, in the files beside src/fasterhttp.c.
pub mod Forward
pub mod IpLimits
pub mod Tree
pub mod RewriteUri
pub mod Sessions
pub mod HashTable
