-- ===== src/Control/Waiting.antt =====
-- kernelmode/vgpu/control.c: waiting for a resource, and mapping it into user mode.
use mvisor_win_vgpu_driver.Common.{ℕ, Option, none, some, ◌==◌, bit_and, if◌then◌else◌}
use mvisor_win_vgpu_driver.Driver.{
  Driver, Context, Resource, ShareDescriptor, null, status_unsuccessful,
}
use mvisor_win_vgpu_driver.Os.{Os}
use mvisor_win_vgpu_driver.Exec.{
  Exec, Result, ok, blocked, ◌>>=◌, ◌>>◌, return, leave_with, unless, nt_success,
}
use mvisor_win_vgpu_driver.Request.{
  Request, Io, Output, retrieve_input, retrieve_output, write_output, update_driver, get_driver,
}
use mvisor_win_vgpu_driver.Abi.{sizeof_wait, wait_of, wait_nowait, sizeof_map, map_handle}
use mvisor_win_vgpu_driver.Lookup.{
  get_virgl_context_from_list, get_resource_from_list, modify_context, write_resource,
}
use mvisor_win_vgpu_driver.Interrupt.{serve}
use mvisor_win_vgpu_driver.Control.Share.{create_user_share_memory}
use mvisor_win_vgpu_driver.Control.Resources.{non_null, current_context}

-- What the pointers to the context and to the resource lead to now.
abbrev in_context : ℕ → Option Context → Option Resource
in_context id none = none
in_context id (some c) = get_resource_from_list id c

unfoldable pub current_resource : ℕ → ℕ → Driver → Option Resource
current_resource ctx id d = in_context id (get_virgl_context_from_list ctx d)

-- What a call that may never return gives.
abbrev pub returned : Option ℕ → Result ℕ
returned none = blocked
returned (some status) = ok status

abbrev pub wait_in_io : Os → ℕ → ℕ → Exec Io ℕ
wait_in_io os ctx id s =
    (returned (os.event_status ctx id), record s { driver = serve os os.interrupts s.driver })

unfoldable pub ctl_wait : Os → Request → Exec Io ℕ
ctl_wait os request = do
  _ ← retrieve_input request sizeof_wait
  status ← retrieve_output request 4
  c ← current_context os
  let cmd = wait_of request.input
  r ← non_null (get_resource_from_list cmd.handle c) status_unsuccessful
  if bit_and cmd.flags wait_nowait == 0
      then (do
        waited ← wait_in_io os c.id cmd.handle
        write_output (Output.u32 (if nt_success waited then 0 else 1))
        return waited)
      else (do write_output (Output.u32 (if r.idle then 0 else 1)); return status)

abbrev pub set_share : ShareDescriptor → Resource → Resource
set_share s r = record r { buffer = record (r.buffer) { share = s } }

-- Mapping a resource that is idle: its memory as it is now is shared.
unfoldable pub share_resource : Os → ℕ → ℕ → Resource → Exec Io (Unit {0})
share_resource os ctx id r =
    let asked : ShareDescriptor = record (r.buffer.share) {
      kernel_address = r.buffer.memory.virtual_address;
      size = r.buffer.size;
    } in
    let (done, s) = create_user_share_memory os asked in
    if done
    then (do
      update_driver (modify_context ctx (write_resource id (set_share s)))
      write_output (Output.u64 s.user_address))
    else (do
      update_driver (modify_context ctx (write_resource id (set_share (record s { mdl = null }))))
      leave_with status_unsuccessful)

abbrev still : Resource → Option Resource → Resource
still r none = r
still r (some now) = now

unfoldable pub ctl_map : Os → Request → Exec Io ℕ
ctl_map os request = do
  _ ← retrieve_input request sizeof_map
  status ← retrieve_output request 8
  c ← current_context os
  let handle = map_handle request.input
  r ← non_null (get_resource_from_list handle c) status_unsuccessful
  unless r.for_buffer status_unsuccessful
  if r.buffer.share.mdl == null
      then (do
        _ ← wait_in_io os c.id handle
        d ← get_driver
        share_resource os c.id handle (still r (current_resource c.id handle d)))
      else write_output (Output.u64 r.buffer.share.user_address)
  return status
