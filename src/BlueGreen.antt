-- ===== src/BlueGreen.antt =====
-- gitops/blue_green_service.py and gitops/models.py.
pub mod Client
pub mod Manager
pub mod Traffic
pub mod Lock
pub mod Drain
mod Tests
