-- ===== src/Control/Submission.antt =====
-- kernelmode/vgpu/control.c: transfers and command submission.
use mvisor_win_vgpu_driver.Common.{
  ℕ, ◌*◌, Bool, true, Option, none, some, List, [], ◌∷◌, ◌==◌, bit_and, ltb, if◌then◌else◌,
}
use mvisor_win_vgpu_driver.Idr.{get_id_from_idr_without_cache}
use mvisor_win_vgpu_driver.Wire.{TransferHost3d}
use mvisor_win_vgpu_driver.Driver.{
  Driver, Context, null, status_unsuccessful, status_insufficient_resources,
}
use mvisor_win_vgpu_driver.Os.{Os}
use mvisor_win_vgpu_driver.Command.Send.{transfer_host_3d, submit_command}
use mvisor_win_vgpu_driver.Exec.{Exec, ◌>>=◌, ◌>>◌, return, leave_with, unless, nt_success}
use mvisor_win_vgpu_driver.Request.{
  Request, Io, retrieve_input, update_driver, call_driver, u32_array,
}
use mvisor_win_vgpu_driver.Abi.{
  Transfer, sizeof_transfer, transfer_of, Execbuffer, sizeof_execbuffer, execbuffer_of,
  execbuf_fence_fd_in, execbuf_fence_fd_out,
}
use mvisor_win_vgpu_driver.Lookup.{get_resource_from_list, update_resource_state}
use mvisor_win_vgpu_driver.Control.Contexts.{read_user_buffer}
use mvisor_win_vgpu_driver.Control.Resources.{non_null, current_context, round_up, allocate}

abbrev pub transfer_param : Transfer → ℕ → TransferHost3d
transfer_param t id = record {
  box = t.box;
  offset = t.offset;
  resource_id = id;
  level = t.level;
  stride = t.stride;
  layer_stride = t.layer_stride;
}

unfoldable pub ctl_transfer_host : Os → Bool → Request → Exec Io ℕ
ctl_transfer_host os to_host request = do
  status ← retrieve_input request sizeof_transfer
  c ← current_context os
  let cmd = transfer_of request.input
  r ← non_null (get_resource_from_list cmd.bo_handle c) status_unsuccessful
  update_driver (update_resource_state c.id (r.id ∷ []) 1 true 0)
  update_driver (transfer_host_3d os c.id (transfer_param cmd r.id) 0 to_host)
  return status

-- `ObReferenceObjectByHandle`
unfoldable pub reference : Os → ℕ → Exec Io ℕ
reference os handle =
    let (status, object) = os.reference_object handle in
    if nt_success status then return object else leave_with status

unfoldable pub wait_in_fence : Os → Execbuffer → Exec Io (Unit {0})
wait_in_fence os cmd = if bit_and cmd.flags execbuf_fence_fd_in == 0 then return tt else (do
  fence ← reference os cmd.in_fence_fd
  unless (nt_success (os.wait_for_object fence)) (os.wait_for_object fence))

unfoldable pub find_out_fence : Os → Execbuffer → Exec Io ℕ
find_out_fence os cmd =
    if bit_and cmd.flags execbuf_fence_fd_out == 0
    then return null
    else reference os cmd.out_fence_fd

unfoldable pub next_fence_id : Driver → ℕ × Driver
next_fence_id d =
    let (id, r) = get_id_from_idr_without_cache 8 d.idrs.fence in
    (id, record d { idrs = record (d.idrs) { fence = r } })

-- A fence identifier is taken only for an output fence; 0 stands for none.
unfoldable pub take_fence_id : ℕ → Exec Io ℕ
take_fence_id out_fence = if out_fence == null then return 0 else call_driver next_fence_id

-- The resources that the commands use become busy, and their handles are kept for the completion.
unfoldable pub take_handles : Os → Context → Execbuffer → ℕ → Exec Io (Option (List ℕ))
take_handles os c cmd fence_id =
    if ltb 0 cmd.num_bo_handles
    then (do
      (_, bytes) ← read_user_buffer os cmd.bo_handles (4 * cmd.num_bo_handles)
      let handles = u32_array cmd.num_bo_handles 0 bytes
      update_driver (update_resource_state c.id handles cmd.num_bo_handles true fence_id)
      unless (os.pool_for (4 * cmd.num_bo_handles)) status_insufficient_resources
      return (some handles))
    else return none

unfoldable pub ctl_submit_command : Os → Request → Exec Io ℕ
ctl_submit_command os request = do
  _ ← retrieve_input request sizeof_execbuffer
  c ← current_context os
  let cmd = execbuffer_of request.input
  wait_in_fence os cmd
  out_fence ← find_out_fence os cmd
  _ ← read_user_buffer os cmd.command cmd.size
  let aligned = round_up 32 cmd.size
  found ← call_driver (allocate os aligned)
  memory ← non_null found status_unsuccessful
  fence_id ← take_fence_id out_fence
  handles ← take_handles os c cmd fence_id
  call_driver
      (submit_command os c.id memory aligned cmd.size handles cmd.num_bo_handles fence_id out_fence)
