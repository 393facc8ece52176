-- ===== src/Application.antt =====
-- The messages and the file transfer of application_layer/application_layer.c.
pub mod Messages
pub mod Files
pub mod Menu
