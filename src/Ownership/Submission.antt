-- ===== src/Ownership/Submission.antt =====
-- The handler of kernelmode/vgpu/control.c that submits commands keeps the invariant.
use mvisor_win_vgpu_driver.Common.{ℕ, ◌+◌, ◌/◌, ◌%◌, ◌^◌, true, Option, none, some, List, arith}
use mvisor_win_vgpu_driver.Memory.{MemoryDescriptor, page_size}
use mvisor_win_vgpu_driver.Memory.Bitmap.{RtlLaws}
use mvisor_win_vgpu_driver.Driver.{Driver, Context, status_unsuccessful}
use mvisor_win_vgpu_driver.Os.{Os}
use mvisor_win_vgpu_driver.Exec.{◌>>=◌}
use mvisor_win_vgpu_driver.Request.{Request, call_driver}
use mvisor_win_vgpu_driver.Abi.{Execbuffer, execbuffer_of}
use mvisor_win_vgpu_driver.Command.Send.{submit_command}
use mvisor_win_vgpu_driver.Control.Resources.{non_null, round_up, allocate}
use mvisor_win_vgpu_driver.Control.Submission.{
  next_fence_id, take_fence_id, take_handles, ctl_submit_command,
}
use mvisor_win_vgpu_driver.Ownership.Memory.{descriptor_claim}
use mvisor_win_vgpu_driver.Ownership.Totals.{Calm-update_resource_state}
use mvisor_win_vgpu_driver.Ownership.Commands.{Grows-submit_command}
use mvisor_win_vgpu_driver.Ownership.Invariant.{Owned, nothing, Owned-Calm, Owned-less}
use mvisor_win_vgpu_driver.Ownership.Steps.{allocate-Owned, GrantedTo, submit-Owned}
use mvisor_win_vgpu_driver.Control.Steady.Fences.{
  Stays-wait_in_fence, Stays-find_out_fence, Stays-take_fence_id, Stays-take_handles,
}
use mvisor_win_vgpu_driver.Ownership.Waits.{Safe}
use mvisor_win_vgpu_driver.Ownership.Statements.{
  Ends, Ends-bind, Ends-return, Ends-leave_with, Ends-call_driver, Ends-before,
  Ends-current_context, Current, Stays-retrieve_input, Stays-read_user_buffer,
}

-- Memory that the handler holds for the commands.
abbrev Held : ℕ → MemoryDescriptor → Driver → Type 0
Held size m = Owned (λ f. f (descriptor_claim m size) + nothing f)

Held-Safe : (size : ℕ) (m : MemoryDescriptor) (d : Driver) → Held size m d → Safe d
Held-Safe size m d o = Owned-less _ nothing d (λ f. omega arith) o

next_fence-Held :
    (size : ℕ) (m : MemoryDescriptor) (d : Driver) → Held size m d → Held size m (next_fence_id d).1
unfolding next_fence_id
next_fence-Held size m d o = record { backs = o.backs; fresh = o.fresh; blobs = o.blobs }

module _ (os : Os) (laws : RtlLaws os.rtl) where
  granted-Ends :
      (size : ℕ) (found : Option MemoryDescriptor)
      → Ends (GrantedTo nothing size found) (non_null found status_unsuccessful) (Held size)
  granted-Ends size none = Ends-leave_with _ (λ d h. h)
  granted-Ends size (some m) = Ends-return m (λ d h. h)

  submit-Safe :
      (ctx size n k fence object : ℕ) (m : MemoryDescriptor) (ids : Option (List ℕ)) (d : Driver)
      → Held size m d
      → Safe (submit_command os ctx m size n ids k fence object d).1
  submit-Safe ctx size n k fence object m ids d o =
      let (b, is, g) = Grows-submit_command os ctx m size n ids k fence object d in
      submit-Owned nothing m.virtual_address size b d _ is g o

  -- From the allocation on: the memory of the commands goes to the buffer, or is leaked.
  submit-Held-Ends :
      (c : Context) (cmd : Execbuffer) (out_fence size : ℕ) (m : MemoryDescriptor)
      → Ends
          (Held size m)
          (do
            fence_id ← take_fence_id out_fence
            handles ← take_handles os c cmd fence_id
            call_driver (
                submit_command os c.id m size cmd.size handles cmd.num_bo_handles fence_id
                  out_fence))
          (λ _. Safe)
  submit-Held-Ends c cmd out_fence size m =
      Ends-bind (λ _. Held size m) _ _
        (Stays-take_fence_id os Safe (Held size m) (Held-Safe size m) out_fence
          (next_fence-Held size m))
        (λ fence.
          Ends-bind (λ _. Held size m) _ _
            (Stays-take_handles os Safe (Held size m) (Held-Safe size m) c cmd fence (λ ids n d h.
              Owned-Calm _ d _ (Calm-update_resource_state c.id ids n true fence d) h))
            (λ ids.
              Ends-call_driver _ (λ d h. submit-Safe c.id size _ _ fence out_fence m ids d h)))

  allocate-Safe :
      (n : ℕ) (d : Driver)
      → Safe d
      → let (found, d') = allocate os (round_up 32 n) d in
        GrantedTo nothing (round_up 32 n) found d'
  allocate-Safe n d o = allocate-Owned os laws nothing ((n + 4095) % 2 ^ 32 / page_size) d o

  -- `CtlSubmitCommand`
  pub submit_command-Ends :
      (request : Request) → Ends Safe (ctl_submit_command os request) (λ _. Safe)
  unfolding ctl_submit_command
  submit_command-Ends request =
      let cmd = execbuffer_of request.input in
      let size = round_up 32 cmd.size in
      Ends-bind (λ _. Safe) _ _ (Stays-retrieve_input Safe (λ d h. h) request _)
        (λ _.
          Ends-bind (Current Safe (λ d h. h) os) _ _ (Ends-current_context Safe (λ d h. h) os) (λ c.
            Ends-before _ _ (λ d h. h.0)
              (Ends-bind (λ _. Safe) _ _ (Stays-wait_in_fence os Safe Safe (λ d h. h) cmd)
                (λ _.
                  Ends-bind (λ _. Safe) _ _ (Stays-find_out_fence os Safe Safe (λ d h. h) cmd)
                    (λ out_fence.
                      Ends-bind (λ _. Safe) _ _ (Stays-read_user_buffer Safe (λ d h. h) os _ _)
                        (λ _.
                          Ends-bind (GrantedTo nothing size) _ _
                            (Ends-call_driver _ (λ d o. allocate-Safe cmd.size d o))
                            (λ found.
                              Ends-bind (Held size) _ _ (granted-Ends size found)
                                (λ m. submit-Held-Ends c cmd out_fence size m))))))))
