-- ===== src/Plane.antt =====
-- The control plane: the ports of tunnels, and the limiter of logins.
pub mod Ports
pub mod Login
pub mod Tests
