-- ===== src/Ioctl/Alone.antt =====
-- The steps of kernelmode/vgpu/control.c and command.c that leave the list of contexts alone.
use mvisor_win_vgpu_driver.Common.{
  ℕ, ◌≡◌, refl, ◌∙◌, Bool, true, false, Option, List, [], ◌∷◌, arith, ◌==◌, ◌||◌, ltb,
  if◌then◌else◌, Bool-cases, inl, inr,
}
use mvisor_win_vgpu_driver.Memory.{MemoryDescriptor}
use mvisor_win_vgpu_driver.Wire.{Command}
use mvisor_win_vgpu_driver.Driver.{Driver, Context, Resource, VgpuBuffer, ShareDescriptor, null}
use mvisor_win_vgpu_driver.Os.{Os, Descriptor}
use mvisor_win_vgpu_driver.Command.Push.{
  Queue, command_queue, control_queue, queued, push_queue, send, send_command,
}
use mvisor_win_vgpu_driver.Command.Send.{
  destroy_virgl_context, unmap_blob_resource, detach_resource_backing, unref_resource,
  submit_command,
}
use mvisor_win_vgpu_driver.Control.Share.{
  delete_user_share_memory, release_backing, delete_resource,
}
use mvisor_win_vgpu_driver.Control.Contexts.{
  remove_context, delete_resources, ctl_destroy_virgl_context,
}
use mvisor_win_vgpu_driver.Control.Resources.{next_resource_id, allocate}
use mvisor_win_vgpu_driver.Control.Submission.{next_fence_id}

abbrev pub Alone : Driver → Driver → Type 0
Alone d d' = d'.contexts ≡ d.contexts

either-Alone : (b : Bool) (d x y : Driver) → Alone d x → Alone d y → Alone d (if b then x else y)
either-Alone true d x y h k = h
either-Alone false d x y h k = k

queued-Alone : (ret : ℕ) (q : Queue) (b : VgpuBuffer) (d : Driver) → Alone d (queued ret q b d).1
queued-Alone ret command_queue b d = ground arith
queued-Alone ret control_queue b d = ground arith

pub next_resource_id-Alone : (d : Driver) → Alone d (next_resource_id d).1
unfolding next_resource_id
next_resource_id-Alone d = refl

pub next_fence_id-Alone : (d : Driver) → Alone d (next_fence_id d).1
unfolding next_fence_id
next_fence_id-Alone d = refl

delete_user_share_memory-Alone :
    (s : ShareDescriptor) (d : Driver) → Alone d (delete_user_share_memory s d)
unfolding delete_user_share_memory
delete_user_share_memory-Alone s d =
    either-Alone (s.user_address == null || s.mdl == null) d _ _ refl refl

module _ (os : Os) where
  push_queue-Alone :
      (q : Queue) (sg : List Descriptor) (m n : ℕ) (b : VgpuBuffer) (d : Driver)
      → Alone d (push_queue os q sg m n b d).1
  unfolding push_queue
  push_queue-Alone q sg m n b d = queued-Alone _ q b d

  send-Alone :
      (q : Queue) (command : Command) (n : ℕ) (b : VgpuBuffer) (d : Driver)
      → Alone d (send os q command n b d).1
  unfolding send
  send-Alone q command n b d = elim (Bool-cases (ltb 0 n)) [
    | inl e ↦ rw e (push_queue-Alone q _ _ _ b d)
    | inr e ↦ rw e (push_queue-Alone q _ _ _ b d)
  ]

  pub send_command-Alone :
      (q : Queue) (command : Command) (n : ℕ) (sync : Bool) (d : Driver)
      → Alone d (send_command os q command n sync d)
  unfolding send_command
  send_command-Alone q command n sync d = send-Alone q command n _ d

  pub submit_command-Alone :
      (ctx : ℕ) (m : MemoryDescriptor) (n k : ℕ) (ids : Option (List ℕ)) (c f o : ℕ) (d : Driver)
      → Alone d (submit_command os ctx m n k ids c f o d).1
  unfolding submit_command
  submit_command-Alone ctx m n k ids c f o d = push_queue-Alone _ _ _ 0 _ d

  pub allocate-Alone : (n : ℕ) (d : Driver) → Alone d (allocate os n d).1
  unfolding allocate
  allocate-Alone n d = refl

  release_backing-Alone :
      (ctx : ℕ) (r : Resource) (d : Driver) → Alone d (release_backing os ctx r d)
  unfolding release_backing unmap_blob_resource detach_resource_backing
  release_backing-Alone ctx r d =
      either-Alone r.for_blob d _ _ (send_command-Alone _ _ _ _ d) (send_command-Alone _ _ _ _ d)

  pub delete_resource-Alone :
      (ctx : ℕ) (r : Resource) (d : Driver) → Alone d (delete_resource os ctx r d)
  unfolding delete_resource unref_resource
  delete_resource-Alone ctx r d =
      let unshared =
        if r.buffer.share.mdl == null then d else delete_user_share_memory r.buffer.share d in
      let h =
        either-Alone (r.buffer.share.mdl == null) d d _ refl
          (delete_user_share_memory-Alone r.buffer.share d) in
      send_command-Alone _ _ _ _ _
      ∙ either-Alone r.for_buffer d _ _ (release_backing-Alone ctx r unshared ∙ h) refl

  delete_resources-Alone :
      (ctx : ℕ) (rs : List Resource) (d : Driver) → Alone d (delete_resources os ctx rs d)
  unfolding delete_resources
  delete_resources-Alone ctx [] d = refl
  delete_resources-Alone ctx (r ∷ rs) d =
      delete_resource-Alone ctx r _ ∙ delete_resources-Alone ctx rs d

  -- The destruction of a context takes it off the list, and no more.
  pub destroy-Alone :
      (c : Context) (d : Driver)
      → Alone (remove_context c.id d) (ctl_destroy_virgl_context os c d).1
  unfolding ctl_destroy_virgl_context destroy_virgl_context
  destroy-Alone c d =
      send_command-Alone _ _ _ _ _ ∙ delete_resources-Alone c.id c.resources (remove_context c.id d)
