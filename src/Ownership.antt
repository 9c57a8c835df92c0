-- ===== src/Ownership.antt =====
-- Who uses the guest memory of kernelmode/vgpu, and under which identifiers: the resources of the
-- contexts in kernelmode/vgpu/control.c, and the commands that the device has not returned.
pub mod Memory
pub mod Totals
pub mod Commands
pub mod Invariant
pub mod Taking
pub mod Steps
pub mod Completion
pub mod Deletion
pub mod Returned
pub mod Statements
pub mod Creation
pub mod Waits
pub mod Submission
pub mod Reach
