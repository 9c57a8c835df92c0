-- ===== src/Ownership/Reach.antt =====
-- Every request, interrupt and end of a process keeps the invariant of kernelmode/vgpu, from the
-- moment the hardware is prepared.

pub mod Events
use mvisor_win_vgpu_driver.Common.{
  ℕ, ◌+◌, ◌*◌, ◌^◌, ◌≤◌, ◌<◌, ◌≡◌, ◌≢◌, refl, Bool, true, false, Option, none, some, List, [], ◌∷◌,
  arith, ◌==◌, if◌then◌else◌, Bool-cases, inl, inr, ==→eq,
}
use mvisor_win_vgpu_driver.Memory.Bitmap.{RtlLaws}
use mvisor_win_vgpu_driver.Driver.{
  Driver, Context, status_success, status_unsuccessful, status_not_supported, null,
}
use mvisor_win_vgpu_driver.Os.{Os, Interrupt}
use mvisor_win_vgpu_driver.Exec.{Exec, Result, ok, leave, blocked}
use mvisor_win_vgpu_driver.Request.{Request, Io, Output}
use mvisor_win_vgpu_driver.Lookup.{get_virgl_context_from_list}
use mvisor_win_vgpu_driver.Control.Contexts.{ctl_destroy_virgl_context}
use mvisor_win_vgpu_driver.Ioctl.{
  Ioctl, context_init, destroy_context, map, execbuffer, getparam, get_caps, resource_create,
  resource_close, transfer_from_host, transfer_to_host, wait, blob_resource_create, destroy_found,
  handle, handle_case, ioctl_of, io_control,
}
use mvisor_win_vgpu_driver.Ioctl.Kept.{Kept, io_control-kept}
use mvisor_win_vgpu_driver.Ownership.Invariant.{Owned, nothing}
use mvisor_win_vgpu_driver.Ownership.Steps.{next_id}
use mvisor_win_vgpu_driver.Ownership.Deletion.{destroy_context-Owned}
use mvisor_win_vgpu_driver.Ownership.Statements.{
  Ends, EndsAt, Ends-bind, Ends-return, Ends-call_driver, Ends-get_driver, Ends-before, Ends-fact,
}
use mvisor_win_vgpu_driver.Ownership.Creation.{
  Ready, create_resource-Ends, create_blob_resource-Ends,
}
use mvisor_win_vgpu_driver.Ownership.Waits.{
  Safe, Safe-Steady, close_resource-Ends, transfer_host-Ends,
}
use mvisor_win_vgpu_driver.Control.Steady.{wait-Ends, map-Ends, init_context-Ends}
use mvisor_win_vgpu_driver.Control.Steady.Queries.{get_params-Ends, get_caps-Ends}
use mvisor_win_vgpu_driver.Ownership.Submission.{submit_command-Ends}

module _ (os : Os) (laws : RtlLaws os.rtl) where
  pub Safe-Kept : Kept os Safe Ready
  Safe-Kept = record {
    weaker = λ d h. h.0;
    steady = Safe-Steady os laws;
    destroyed = λ c d at o. destroy_context-Owned os laws nothing os.process_id c d at o;
    create = create_resource-Ends os laws;
    create_blob = create_blob_resource-Ends os laws;
    close = close_resource-Ends os laws;
    submit = submit_command-Ends os laws;
    transfer = transfer_host-Ends os laws;
  }

  -- A request keeps the invariant whatever its code, its bytes and the answers of the kernel are,
  -- on every path through its handler: success, every early return, and a wait that never ends. The
  -- driver must not have issued all 32-bit resource identifiers.
  pub io_control-Owned :
      (request : Request) (code : ℕ) (d : Driver)
      → Owned nothing d
      → next_id d < 2 ^ 32
      → Owned nothing (io_control os request code d).1
  io_control-Owned request code d o room =
      io_control-kept os Safe Ready Safe-Kept request code d (o, room)
