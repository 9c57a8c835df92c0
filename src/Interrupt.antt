-- ===== src/Interrupt.antt =====
-- kernelmode/vgpu/vgpu.c: what happens when the device returns buffers.
pub mod Line
pub mod Served
pub mod Messages
use mvisor_win_vgpu_driver.Common.{
  ℕ, zero, suc, Bool, true, false, Option, none, some, List, [], ◌∷◌, ◌==◌, ltb, if◌then◌else◌,
  get_elem?, remove_at,
}
use mvisor_win_vgpu_driver.Memory.{free_vgpu_memory}
use mvisor_win_vgpu_driver.Wire.{CtrlType, Body}
use mvisor_win_vgpu_driver.Driver.{Driver, Context, Resource, VgpuBuffer, Effect, null}
use mvisor_win_vgpu_driver.Os.{Os, Completion, Interrupt}
use mvisor_win_vgpu_driver.Command.Push.{
  Queue, command_queue, control_queue, outstanding, set_outstanding, log_effect,
}
use mvisor_win_vgpu_driver.Lookup.{
  get_resource_from_list, get_virgl_context_from_list, modify_context, write_resource,
  update_resource_state,
}

-- The resource that a command names.
abbrev pub resource_of : Body → ℕ
resource_of (Body.resource id) = id
resource_of (Body.transfer_3d t) = t.resource_id
resource_of _ = 0

abbrev pub set_mapping : ℕ → ℕ → Resource → Resource
set_mapping address size r = record r {
  idle = true;
  buffer = record (r.buffer) {
    size = size;
    memory = record (r.buffer.memory) { virtual_address = address };
  };
}

module _ (os : Os) where
  -- `MapBlobResourceCallback`, of kernelmode/vgpu/control.c, in the context with the identifier.
  unfoldable pub map_blob_resource_callback : ℕ → ℕ → ℕ → ℕ → Driver → Driver
  map_blob_resource_callback ctx id gpa size d =
      let address = os.map_io_space gpa size in
      if address == null
      then d
      else modify_context ctx (write_resource id (set_mapping address size)) d

  abbrev pub release_handles : Option (List ℕ) → VgpuBuffer → Driver → Driver
  release_handles none b d = d
  release_handles (some ids) b d =
      update_resource_state b.command.hdr.ctx_id ids b.resource_ids_count false
        b.command.hdr.fence_id d

  abbrev pub signal_fence : ℕ → Driver → Driver
  signal_fence object d = if object == null then d else log_effect (Effect.set_fence_event object) d

  abbrev pub free_memory : ℕ → ℕ → Driver → Driver
  free_memory va size d = record d { memory = free_vgpu_memory os.rtl va size d.memory }

  -- The case of `VIRTIO_GPU_CMD_SUBMIT_3D`.
  unfoldable pub finish_submit : VgpuBuffer → Driver → Driver
  finish_submit b d =
      free_memory b.data_buf b.data_buf_size
        (signal_fence b.fence_object (release_handles b.resource_ids b d))

  -- The `switch` on the type of a returned buffer's command. Freeing the command buffer leaves no
  -- trace here; the buffer of a capset query is freed by the thread that waits for it.
  unfoldable pub dispatch : CtrlType → VgpuBuffer → Completion → Driver → Driver
  dispatch CtrlType.submit_3d b c d = finish_submit b d
  dispatch CtrlType.resource_map_blob b c d =
      map_blob_resource_callback b.command.hdr.ctx_id (resource_of b.command.body) c.gpa c.size d
  dispatch CtrlType.transfer_to_host_3d b c d =
      update_resource_state b.command.hdr.ctx_id (resource_of b.command.body ∷ []) 1 false
        b.command.hdr.fence_id d
  dispatch CtrlType.transfer_from_host_3d b c d =
      update_resource_state b.command.hdr.ctx_id (resource_of b.command.body ∷ []) 1 false
        b.command.hdr.fence_id d
  dispatch _ b c d = d

  -- `VirtioVgpuReadFromQueue`: buffer after buffer, until `virtqueue_get_buf` returns none.
  unfoldable pub read_from_queue : Queue → List Completion → Driver → Driver
  read_from_queue q [] d = d
  read_from_queue q (c ∷ cs) d = elim (get_elem? (outstanding q d) c.index) [
    | none ↦ d
    | some b ↦ read_from_queue q cs (
        dispatch b.command.hdr.ctrl_type b c
          (set_outstanding q (remove_at (outstanding q d) c.index) d))
  ]

  abbrev pub read_nth_queue : ℕ → Interrupt → Driver → Driver
  read_nth_queue zero i d = read_from_queue command_queue i.on_command_queue d
  read_nth_queue (suc zero) i d = read_from_queue control_queue i.on_control_queue d
  read_nth_queue (suc (suc n)) i d = d

  -- Every queue below the number, in order.
  abbrev pub read_queues : ℕ → Interrupt → Driver → Driver
  read_queues zero i d = d
  read_queues (suc n) i d = read_nth_queue n i (read_queues n i d)

  -- `VirtioVgpuInterruptDpc`. The message number is none where the interrupt is not message
  -- signalled; queues past the two that the driver puts commands on hold no buffers.
  unfoldable pub interrupt_dpc : Option ℕ → Interrupt → Driver → Driver
  interrupt_dpc none i d = read_queues d.num_virt_queues i d
  interrupt_dpc (some n) i d =
      if ltb n d.num_virt_queues then read_nth_queue n i d else read_queues d.num_virt_queues i d

  -- Interrupts one after another, in which each queue is read.
  unfoldable pub serve : List Interrupt → Driver → Driver
  serve [] d = d
  serve (i ∷ is) d = serve is (interrupt_dpc none i d)
