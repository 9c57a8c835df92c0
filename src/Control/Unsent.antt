-- ===== src/Control/Unsent.antt =====
-- CtlSubmitCommand of kernelmode/vgpu/control.c when the handles of the resources cannot be taken:
-- what it leaves of the memory that it took for the commands.
use mvisor_win_vgpu_driver.Common.{
  ℕ, ◌+◌, ◌^◌, ◌<◌, ◌≡◌, refl, ◌∙◌, ap, true, some, List, ◌==◌, bit_and, arith, length,
}
use mvisor_win_vgpu_driver.Memory.{
  VgpuMemory, MemoryDescriptor, allocate_vgpu_memory, record_allocation,
}
use mvisor_win_vgpu_driver.Memory.Bitmap.{Rtl}
use mvisor_win_vgpu_driver.Driver.{Driver, Context}
use mvisor_win_vgpu_driver.Os.{Os}
use mvisor_win_vgpu_driver.Exec.{Result, ok, blocked, leave, nt_success, ◌>>=◌}
use mvisor_win_vgpu_driver.Request.{
  Request, Io, retrieve_input, set_bytes_return, get_driver, call_driver,
}
use mvisor_win_vgpu_driver.Abi.{
  Execbuffer, sizeof_execbuffer, execbuffer_of, execbuf_fence_fd_in, execbuf_fence_fd_out,
}
use mvisor_win_vgpu_driver.Lookup.{get_virgl_context_from_list, update_resource_state}
use mvisor_win_vgpu_driver.Control.Contexts.{read_user_buffer}
use mvisor_win_vgpu_driver.Control.Resources.{current_context, round_up, allocate}
use mvisor_win_vgpu_driver.Control.Submission.{
  wait_in_fence, find_out_fence, take_fence_id, take_handles, ctl_submit_command,
}
use mvisor_win_vgpu_driver.Control.Triples.{TripleAt}
use mvisor_win_vgpu_driver.Control.Steady.Fences.{Stays-take_handles}

taken-available :
    (rtl : Rtl) (size : ℕ) (m : VgpuMemory) (found : MemoryDescriptor)
    → m.available < 2 ^ 64
    → (allocate_vgpu_memory rtl size m).0 ≡ some found
    → (allocate_vgpu_memory rtl size m).1.available + size ≡ m.available
unfolding allocate_vgpu_memory record_allocation
taken-available rtl size m found fits h = ground arith

-- What the device may still have of the driver: the buffers that are outstanding, and what was done
-- so far outside of the driver.
pub record SameQueues (d d' : Driver) : Type 0 where
  pub command_queue : d'.command_queue ≡ d.command_queue
  pub control_queue : d'.control_queue ≡ d.control_queue
  pub effects : d'.effects ≡ d.effects

abbrev Kept : Driver → Driver → Type 0
Kept d d' = SameQueues d d' × (d'.memory ≡ d.memory)

update_resource_state-Kept :
    (d : Driver) (ctx : ℕ) (ids : List ℕ) (n : ℕ) (d' : Driver)
    → Kept d d'
    → Kept d (update_resource_state ctx ids n true 0 d')
unfolding update_resource_state
update_resource_state-Kept d ctx ids n d' (q, m) = (
  record { command_queue = q.command_queue; control_queue = q.control_queue; effects = q.effects },
  m,
)

-- However a statement ends, if all its ends keep the same.
Kept-after :
    {A : Type 0} (d : Driver) (r : Result A) (d' : Driver)
    → TripleAt (Kept d) (λ _. Kept d) r d'
    → Kept d d'
Kept-after d (ok a) d' h = h
Kept-after d (leave status) d' h = h
Kept-after d blocked d' h = h

-- A submission with no fences whose commands can be read.
pub record IsReadable (os : Os) (request : Request) (bytes : List ℕ) : Type 0 where
  pub input_success : nt_success request.input_status ≡ true
  pub input_size : (length request.input == sizeof_execbuffer) ≡ true
  pub no_in_fence : (bit_and (execbuffer_of request.input).flags execbuf_fence_fd_in == 0) ≡ true
  pub no_out_fence : (bit_and (execbuffer_of request.input).flags execbuf_fence_fd_out == 0) ≡ true
  pub locked :
      nt_success
        (os.probe_and_lock (execbuffer_of request.input).command (execbuffer_of request.input).size)
      ≡ true
  pub mapped :
      os.memory_buffer (execbuffer_of request.input).command (execbuffer_of request.input).size
      ≡ some bytes

module _ (os : Os) (request : Request) (c : Context) where
  abbrev cmd : Execbuffer
  cmd = execbuffer_of request.input

  abbrev aligned : ℕ
  aligned = round_up 32 cmd.size

  -- When the memory has been taken and the handles are next.
  abbrev pub holding : Io → Io
  holding io = record io {
    driver = (allocate os aligned io.driver).1;
    bytes_return = length request.input;
  }

  take_handles-kept :
      (io : Io)
      → let after = (take_handles os c cmd 0 io).1.driver in
        SameQueues io.driver after × (after.memory ≡ io.driver.memory)
  take_handles-kept io =
      let start : SameQueues io.driver io.driver = record {
        command_queue = refl;
        control_queue = refl;
        effects = refl;
      } in
      let t =
        Stays-take_handles os (Kept io.driver) (Kept io.driver) (λ d h. h) c cmd 0
          (λ ids n d h. update_resource_state-Kept io.driver c.id ids n d h) in
      Kept-after io.driver _ _ (t.at io (start, refl))

  left :
      (bytes : List ℕ) (found : MemoryDescriptor) (status : ℕ) (io : Io)
      → IsReadable os request bytes
      → get_virgl_context_from_list os.process_id io.driver ≡ some c
      → (allocate_vgpu_memory os.rtl aligned io.driver.memory).0 ≡ some found
      → (take_handles os c cmd 0 (holding io)).0 ≡ leave status
      → ctl_submit_command os request io ≡ (leave status, (take_handles os c cmd 0 (holding io)).1)
  unfolding ctl_submit_command ◌>>=◌ retrieve_input set_bytes_return current_context get_driver
      call_driver wait_in_fence find_out_fence read_user_buffer take_fence_id allocate
  left bytes found status io r here room fails = simp (
    r.input_success, r.input_size, r.no_in_fence, r.no_out_fence, r.locked, r.mapped, here, room,
    fails,
  )

  -- A submission with no fences whose commands can be read, of a process with a context, that is
  -- given memory but fails to take the handles of its resources, fails with the same status; it has
  -- sent nothing and no buffer has become outstanding, but the memory for its commands is gone.
  pub submit_command_leaks :
      (bytes : List ℕ) (found : MemoryDescriptor) (status : ℕ) (io : Io)
      → IsReadable os request bytes
      → get_virgl_context_from_list os.process_id io.driver ≡ some c
      → (allocate_vgpu_memory os.rtl aligned io.driver.memory).0 ≡ some found
      → (take_handles os c cmd 0 (holding io)).0 ≡ leave status
      → io.driver.memory.available < 2 ^ 64
      → let (result, after) = ctl_submit_command os request io in
        (result ≡ leave status)
        × SameQueues io.driver after.driver
        × (after.driver.memory.available + aligned ≡ io.driver.memory.available)
  unfolding allocate
  submit_command_leaks bytes found status io r here room fails fits =
      let (same, memory) = take_handles-kept (holding io) in
      rw (left bytes found status io r here room fails) (
        refl,
        record {
          command_queue = same.command_queue;
          control_queue = same.control_queue;
          effects = same.effects;
        },
        ap (λ m. m.available + aligned) memory
            ∙ taken-available os.rtl aligned io.driver.memory found fits room,
      )
