-- ===== src/Dns.antt =====
-- internal/dns: the lookup of a name by the nameservers of the host.
pub mod Names
pub mod Reply
pub mod Ask
pub mod Choice
pub mod Guard
mod Tests
