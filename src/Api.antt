-- ===== src/Api.antt =====
-- seekbase/api, seekbase/server.py and the clients: the HTTP surface.
pub mod Route
pub mod Server
pub mod Client
pub mod Paths
pub mod Agree
pub mod Handlers
pub mod Same
