-- ===== src/Command/Push.antt =====
-- kernelmode/vgpu/command.c: `PushQueue`, `AllocateCommandBuffer`, and the shape that the functions
-- that send a command share.
use mvisor_win_vgpu_driver.Common.{
  ℕ, ◌+◌, ◌-◌, Bool, false, List, [], ◌∷◌, ◌++◌, ltb, ◌==◌, if◌then◌else◌,
}
use mvisor_win_vgpu_driver.Wire.{CtrlType, CtrlHdr, Command, sizeof, flag_fence}
use mvisor_win_vgpu_driver.Driver.{
  Driver, VgpuBuffer, Effect, status_success, status_unsuccessful, null,
}
use mvisor_win_vgpu_driver.Os.{Os, Descriptor}
use mvisor_win_vgpu_driver.Command.Sg.{build_sg_element, sglist_size}

-- `COMMAND_QUEUE` and `CONTROL_QUEUE`, the indices of the queues.
pub data Queue : Type 0 where
  command_queue control_queue : Queue

abbrev pub queue_index : Queue → ℕ
queue_index command_queue = 0
queue_index control_queue = 1

abbrev pub outstanding : Queue → Driver → List VgpuBuffer
outstanding command_queue d = d.command_queue
outstanding control_queue d = d.control_queue

abbrev pub set_outstanding : Queue → List VgpuBuffer → Driver → Driver
set_outstanding command_queue l d = record d { command_queue = l }
set_outstanding control_queue l d = record d { control_queue = l }

abbrev pub log_effect : Effect → Driver → Driver
log_effect e d = record d { effects = e ∷ d.effects }

-- What `PushQueue` does with the value that `virtqueue_add_buf` returned.
abbrev pub queued : ℕ → Queue → VgpuBuffer → Driver → ℕ × Driver
queued ret q buffer d =
    if ret == 0
    then (
      status_success,
      log_effect (Effect.push (queue_index q) buffer.command)
          (set_outstanding q (outstanding q d ++ buffer ∷ []) d),
    )
    else (status_unsuccessful, d)

abbrev pub hdr : CtrlType → ℕ → CtrlHdr
hdr t ctx = record { ctrl_type = t; flags = 0; fence_id = 0; ctx_id = ctx }

-- `if (FenceId > 0) { flags |= VIRTIO_GPU_FLAG_FENCE; fence_id = FenceId; }` on zeroed fields.
abbrev pub fenced : ℕ → CtrlHdr → CtrlHdr
fenced fence_id h =
    if ltb 0 fence_id then record h { flags = flag_fence; fence_id = fence_id } else h

module _ (os : Os) where
  unfoldable pub push_queue : Queue → List Descriptor → ℕ → ℕ → VgpuBuffer → Driver → ℕ × Driver
  push_queue q sg out_num in_num buffer d =
      queued (os.add_buf (queue_index q) (outstanding q d) sg out_num in_num) q buffer d

  -- The buffer comes from the lookaside list, so a field that is not set keeps what it last held.
  -- The command is written to the zeroed block at `pBuf` by the caller.
  unfoldable pub allocate_command_buffer : ℕ → ℕ → Bool → ℕ → Command → VgpuBuffer
  allocate_command_buffer cmd_size resp_size sync request command = record (os.stale_buffer) {
    command = command;
    buf = os.pool_address;
    resp_buf = if ltb 0 resp_size then os.pool_address + cmd_size else os.stale_buffer.resp_buf;
    event = if sync then false else os.stale_buffer.event;
    request = if request == null then os.stale_buffer.request else request;
  }

  -- The common shape: describe the command, then the response if there is one, and push.
  unfoldable pub send : Queue → Command → ℕ → VgpuBuffer → Driver → ℕ × Driver
  send q command resp_size buffer d =
      let (out_num, out) =
        build_sg_element os.physical_address sglist_size buffer.buf (sizeof command.body) in
      let (in_num, response) =
        build_sg_element os.physical_address (sglist_size - out_num) buffer.resp_buf resp_size in
      if ltb 0 resp_size
      then push_queue q (out ++ response) out_num in_num buffer d
      else push_queue q out out_num 0 buffer d

  -- A command that needs no more of its buffer than `AllocateCommandBuffer` gives it.
  unfoldable pub send_command : Queue → Command → ℕ → Bool → Driver → Driver
  send_command q command resp_size sync d =
      let buffer = allocate_command_buffer (sizeof command.body) resp_size sync null command in
      (send q command resp_size buffer d).1
