-- ===== src/Ownership/Completion.antt =====
-- The interrupts of kernelmode/vgpu/vgpu.c and the deletion of resources and contexts keep the
-- invariant.
use mvisor_win_vgpu_driver.Common.{
  ℕ, zero, suc, ◌+◌, ◌≡◌, refl, false, Option, none, some, List, [], ◌∷◌, arith, ◌==◌, ltb,
  get_elem?, Bool-cases, Option-cases, inl, inr,
}
use mvisor_win_vgpu_driver.Memory.Bitmap.{RtlLaws}
use mvisor_win_vgpu_driver.Wire.{CtrlType}
use mvisor_win_vgpu_driver.Driver.{Driver, VgpuBuffer, Effect, null}
use mvisor_win_vgpu_driver.Os.{Os, Completion, Interrupt}
use mvisor_win_vgpu_driver.Command.Push.{
  Queue, command_queue, control_queue, outstanding, log_effect,
}
use mvisor_win_vgpu_driver.Interrupt.{
  resource_of, map_blob_resource_callback, release_handles, signal_fence, finish_submit, dispatch,
  read_from_queue, read_nth_queue, read_queues, interrupt_dpc,
}
use mvisor_win_vgpu_driver.Ownership.Totals.{total, Calm, Calm-refl, Calm-update_resource_state}
use mvisor_win_vgpu_driver.Ownership.Invariant.{
  Owned, Extra, plain_named, buffer_weight, Owned-Calm, Owned-less,
}
use mvisor_win_vgpu_driver.Ownership.Taking.{
  set_mapping-Owned, take_buffer-Owned, take_buffer-mapped,
}
use mvisor_win_vgpu_driver.Ownership.Steps.{free_memory-Owned}

pub Calm-log_effect : (x : Effect) (d : Driver) → Calm d (log_effect x d)
Calm-log_effect x d = record { memory = refl; idrs = refl; light = λ v. omega arith }

Calm-signal_fence : (os : Os) (object : ℕ) (d : Driver) → Calm d (signal_fence os object d)
Calm-signal_fence os object d = elim (Bool-cases (object == null)) [
  | inl e ↦ rw e (Calm-refl d)
  | inr e ↦ rw e (Calm-log_effect _ d)
]

Calm-release_handles :
    (os : Os) (ids : Option (List ℕ)) (b : VgpuBuffer) (d : Driver)
    → Calm d (release_handles os ids b d)
Calm-release_handles os none b d = Calm-refl d
Calm-release_handles os (some ids) b d = Calm-update_resource_state _ ids _ false _ d

module _ (os : Os) (laws : RtlLaws os.rtl) where
  map_callback-Owned :
      (e : Extra) (ctx id gpa size : ℕ) (d : Driver)
      → total (plain_named id) d ≡ 0
      → Owned e d
      → Owned e (map_blob_resource_callback os ctx id gpa size d)
  unfolding map_blob_resource_callback
  map_callback-Owned e ctx id gpa size d blob o =
      elim (Bool-cases (os.map_io_space gpa size == null)) [
        | inl failed ↦ rw failed o
        | inr mapped ↦ rw mapped (set_mapping-Owned e ctx id _ size d blob o)
      ]

  finish_submit-Owned :
      (e : Extra) (b : VgpuBuffer) (d : Driver)
      → Owned (λ f. f (record { address = b.data_buf; size = b.data_buf_size }) + e f) d
      → Owned e (finish_submit os b d)
  unfolding finish_submit
  finish_submit-Owned e b d o =
      let d1 = release_handles os b.resource_ids b d in
      let o1 = Owned-Calm _ d d1 (Calm-release_handles os b.resource_ids b d) o in
      free_memory-Owned os laws e _ _ _
        (Owned-Calm _ d1 _ (Calm-signal_fence os b.fence_object d1) o1)

  -- What completion does with a buffer, whose claim it takes over.
  dispatch-Owned :
      (e : Extra) (t : CtrlType) (b : VgpuBuffer) (c : Completion) (d : Driver)
      → b.command.hdr.ctrl_type ≡ t
      → (t ≡ CtrlType.resource_map_blob → total (plain_named (resource_of b.command.body)) d ≡ 0)
      → Owned (λ f. buffer_weight f b + e f) d
      → Owned e (dispatch os t b c d)
  unfolding dispatch
  dispatch-Owned e CtrlType.submit_3d b c d t blob o =
      finish_submit-Owned e b d (Owned-less _ _ d (λ f. rw t (omega arith)) o)
  dispatch-Owned e CtrlType.resource_map_blob b c d t blob o =
      map_callback-Owned e _ _ c.gpa c.size d (blob refl) (Owned-less _ e d (λ f. omega arith) o)
  dispatch-Owned e CtrlType.transfer_to_host_3d b c d t blob o =
      Owned-Calm e d _ (Calm-update_resource_state _ _ 1 false _ d)
        (Owned-less _ e d (λ f. omega arith) o)
  dispatch-Owned e CtrlType.transfer_from_host_3d b c d t blob o =
      Owned-Calm e d _ (Calm-update_resource_state _ _ 1 false _ d)
        (Owned-less _ e d (λ f. omega arith) o)
  dispatch-Owned e _ b c d t blob o = Owned-less _ e d (λ f. omega arith) o

  read_from_queue-Owned :
      (e : Extra) (q : Queue) (cs : List Completion) (d : Driver)
      → Owned e d
      → Owned e (read_from_queue os q cs d)
  unfolding read_from_queue
  read_from_queue-Owned e q [] d o = o
  read_from_queue-Owned e q (c ∷ cs) d o =
      elim (Option-cases (get_elem? (outstanding q d) c.index)) [
        | inl none_there ↦ rw (none_there, read_from_queue) o
        | inr (b, at) ↦
            rw (at, read_from_queue)
              (read_from_queue-Owned e q cs _ (
                dispatch-Owned e b.command.hdr.ctrl_type b c _ refl
                  (λ t. take_buffer-mapped e q c.index b d at t o)
                  (take_buffer-Owned e q c.index b d at o)))
      ]

  read_nth_queue-Owned :
      (e : Extra) (n : ℕ) (i : Interrupt) (d : Driver)
      → Owned e d
      → Owned e (read_nth_queue os n i d)
  read_nth_queue-Owned e zero i d o = read_from_queue-Owned e command_queue i.on_command_queue d o
  read_nth_queue-Owned e (suc zero) i d o =
      read_from_queue-Owned e control_queue i.on_control_queue d o
  read_nth_queue-Owned e (suc (suc n)) i d o = o

  read_queues-Owned :
      (e : Extra) (n : ℕ) (i : Interrupt) (d : Driver) → Owned e d → Owned e (read_queues os n i d)
  read_queues-Owned e zero i d o = o
  read_queues-Owned e (suc n) i d o = read_nth_queue-Owned e n i _ (read_queues-Owned e n i d o)

  -- An interrupt keeps the invariant, whatever buffers the device returns and in whatever order.
  pub interrupt_dpc-Owned :
      (e : Extra) (message : Option ℕ) (i : Interrupt) (d : Driver)
      → Owned e d
      → Owned e (interrupt_dpc os message i d)
  unfolding interrupt_dpc
  interrupt_dpc-Owned e none i d o = read_queues-Owned e d.num_virt_queues i d o
  interrupt_dpc-Owned e (some n) i d o = elim (Bool-cases (ltb n d.num_virt_queues)) [
    | inl one ↦ rw one (read_nth_queue-Owned e n i d o)
    | inr all ↦ rw all (read_queues-Owned e d.num_virt_queues i d o)
  ]
