-- ===== src/Multiplex.antt =====
-- client/internal/multiplex: many streams over one connection.
pub mod Frame
pub mod Ring
pub mod Link
pub mod Stream
pub mod Session
pub mod Manager
