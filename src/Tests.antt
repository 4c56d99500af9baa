-- ===== src/Tests.antt =====
-- The theorems at concrete inputs.
pub mod Data
pub mod Stores
pub mod Guests
pub mod Files
pub mod Uploads
pub mod Settings
pub mod Albums
pub mod Requests
pub mod Serving
pub mod Starts
