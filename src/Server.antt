-- ===== src/Server.antt =====
-- internal/server: the handlers, each a function of the request, the shared components' state and
-- the outcomes that it cannot choose.
pub mod Http
pub mod Api
pub mod Gate
pub mod Guests
pub mod Upload
pub mod Serving
pub mod Admin
pub mod Pages
pub mod Static
pub mod Print
pub mod Routes
pub mod Exchange
pub mod Serve
