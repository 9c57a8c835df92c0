-- ===== src/Control.antt =====
-- kernelmode/vgpu/control.c: the handlers of the device control requests.
pub mod Share
pub mod Contexts
pub mod Params
pub mod Resources
pub mod Waiting
pub mod Submission
pub mod Unsent
pub mod Triples
pub mod Steady
pub mod Negotiation
pub mod Rounding
