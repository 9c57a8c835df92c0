-- ===== src/Command.antt =====
-- kernelmode/vgpu/command.c: how a command is built and queued.
pub mod Sg
pub mod Push
pub mod Send
