-- ===== src/Api.antt =====
-- internal/api: the control plane. The handlers are functions of the decoded request.
pub mod Auth
pub mod Policies
pub mod Requests
pub mod Upstreams
pub mod Clients
pub mod Servers
pub mod Routes
pub mod Documents
pub mod Stream
mod Tests
