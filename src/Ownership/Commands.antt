-- ===== src/Ownership/Commands.antt =====
-- The commands of kernelmode/vgpu/command.c: what putting one on a queue adds to the totals.
use mvisor_win_vgpu_driver.Common.{
  ℕ, ◌≡◌, refl, Bool, true, false, Option, List, [], ◌∷◌, arith, ◌==◌, ltb, sum_of-append,
  Bool-cases, inl, inr,
}
use mvisor_win_vgpu_driver.Wire.{
  CtrlType, CtrlHdr, sizeof, Command, ResourceCreateParam, BlobResourceCreateParam, TransferHost3d,
}
use mvisor_win_vgpu_driver.Driver.{Driver, Resource, VgpuBuffer, null}
use mvisor_win_vgpu_driver.Memory.{MemoryDescriptor}
use mvisor_win_vgpu_driver.Os.{Os, Descriptor}
use mvisor_win_vgpu_driver.Command.Push.{
  Queue, command_queue, control_queue, queued, push_queue, allocate_command_buffer, send,
  send_command, fenced,
}
use mvisor_win_vgpu_driver.Command.Send.{
  create_virgl_context, destroy_virgl_context, transfer_host_3d, create_3d_resource,
  create_blob_resource, map_blob_resource, unmap_blob_resource, attach_resource_backing,
  detach_resource_backing, unref_resource, submit_command,
}
use mvisor_win_vgpu_driver.Interrupt.{resource_of}
use mvisor_win_vgpu_driver.Ownership.Totals.{Grows, Calm, is_quiet}

Grows-queued :
    (ret : ℕ) (q : Queue) (b : VgpuBuffer) (d : Driver)
    → Grows (λ v. v.of_buffer b) d (queued ret q b d).1
Grows-queued ret command_queue b d = elim (Bool-cases (ret == 0)) [
  | inl e ↦ rw e (record {
    memory = refl;
    idrs = refl;
    light = λ v. omega (arith, sum_of-append v.of_buffer d.command_queue (b ∷ []));
  })
  | inr e ↦ rw e (record { memory = refl; idrs = refl; light = λ v. omega arith })
]
Grows-queued ret control_queue b d = elim (Bool-cases (ret == 0)) [
  | inl e ↦ rw e (record {
    memory = refl;
    idrs = refl;
    light = λ v. omega (arith, sum_of-append v.of_buffer d.control_queue (b ∷ []));
  })
  | inr e ↦ rw e (record { memory = refl; idrs = refl; light = λ v. omega arith })
]

-- The buffers of the two commands whose completion bears on the totals.
abbrev pub IsMapOf : ℕ → VgpuBuffer → Type 0
IsMapOf id b =
    (b.command.hdr.ctrl_type ≡ CtrlType.resource_map_blob) × (resource_of b.command.body ≡ id)

abbrev pub IsSubmitOf : ℕ → ℕ → VgpuBuffer → Type 0
IsSubmitOf address size b =
    (b.command.hdr.ctrl_type ≡ CtrlType.submit_3d)
    × (b.data_buf ≡ address)
    × (b.data_buf_size ≡ size)

module _ (os : Os) where
  pub Grows-push_queue :
      (q : Queue) (sg : List Descriptor) (m n : ℕ) (b : VgpuBuffer) (d : Driver)
      → Grows (λ v. v.of_buffer b) d (push_queue os q sg m n b d).1
  unfolding push_queue
  Grows-push_queue q sg m n b d = Grows-queued _ q b d

  pub Grows-send :
      (q : Queue) (command : Command) (n : ℕ) (b : VgpuBuffer) (d : Driver)
      → Grows (λ v. v.of_buffer b) d (send os q command n b d).1
  unfolding send
  Grows-send q command n b d = elim (Bool-cases (ltb 0 n)) [
    | inl e ↦ rw e (Grows-push_queue q _ _ _ b d)
    | inr e ↦ rw e (Grows-push_queue q _ _ _ b d)
  ]

  fenced-quiet :
      (f : ℕ) (h : CtrlHdr) → is_quiet h.ctrl_type ≡ true → is_quiet (fenced f h).ctrl_type ≡ true
  fenced-quiet f h e = ground arith

  Calm-send_command :
      (q : Queue) (command : Command) (n : ℕ) (sync : Bool) (d : Driver)
      → is_quiet command.hdr.ctrl_type ≡ true
      → Calm d (send_command os q command n sync d)
  unfolding send_command allocate_command_buffer
  Calm-send_command q command n sync d e =
      let b = allocate_command_buffer os (sizeof command.body) n sync null command in
      let s = Grows-send q command n b d in
      record {
        memory = s.memory;
        idrs = s.idrs;
        light = λ v. omega (arith, s.light v, v.quiet b e);
      }

  pub Calm-create_virgl_context :
      (id init : ℕ) (d : Driver) → Calm d (create_virgl_context os id init d)
  unfolding create_virgl_context
  Calm-create_virgl_context id init d = Calm-send_command _ _ _ _ d refl

  pub Calm-destroy_virgl_context : (id : ℕ) (d : Driver) → Calm d (destroy_virgl_context os id d)
  unfolding destroy_virgl_context
  Calm-destroy_virgl_context id d = Calm-send_command _ _ _ _ d refl

  pub Calm-transfer_host_3d :
      (id : ℕ) (t : TransferHost3d) (f : ℕ) (b : Bool) (d : Driver)
      → Calm d (transfer_host_3d os id t f b d)
  unfolding transfer_host_3d
  Calm-transfer_host_3d id t f true d = Calm-send_command _ _ _ _ d (fenced-quiet f _ refl)
  Calm-transfer_host_3d id t f false d = Calm-send_command _ _ _ _ d (fenced-quiet f _ refl)

  pub Calm-create_3d_resource :
      (ctx id : ℕ) (p : ResourceCreateParam) (f : ℕ) (d : Driver)
      → Calm d (create_3d_resource os ctx id p f d)
  unfolding create_3d_resource
  Calm-create_3d_resource ctx id p f d = Calm-send_command _ _ _ _ d (fenced-quiet f _ refl)

  pub Calm-create_blob_resource :
      (ctx id : ℕ) (p : BlobResourceCreateParam) (f : ℕ) (d : Driver)
      → Calm d (create_blob_resource os ctx id p f d)
  unfolding create_blob_resource
  Calm-create_blob_resource ctx id p f d = Calm-send_command _ _ _ _ d (fenced-quiet f _ refl)

  pub Calm-unmap_blob_resource :
      (ctx id f : ℕ) (d : Driver) → Calm d (unmap_blob_resource os ctx id f d)
  unfolding unmap_blob_resource
  Calm-unmap_blob_resource ctx id f d = Calm-send_command _ _ _ _ d (fenced-quiet f _ refl)

  pub Calm-attach_resource_backing :
      (ctx : ℕ) (r : Resource) (d : Driver) → Calm d (attach_resource_backing os ctx r d)
  unfolding attach_resource_backing
  Calm-attach_resource_backing ctx r d = Calm-send_command _ _ _ _ d refl

  pub Calm-detach_resource_backing :
      (r : Resource) (d : Driver) → Calm d (detach_resource_backing os r d)
  unfolding detach_resource_backing
  Calm-detach_resource_backing r d = Calm-send_command _ _ _ _ d refl

  pub Calm-unref_resource : (ctx id : ℕ) (d : Driver) → Calm d (unref_resource os ctx id d)
  unfolding unref_resource
  Calm-unref_resource ctx id d = Calm-send_command _ _ _ _ d refl

  pub Grows-map_blob_resource :
      (ctx id : ℕ) (d : Driver)
      → (b : VgpuBuffer) × IsMapOf id b
        × Grows (λ v. v.of_buffer b) d (map_blob_resource os ctx id 0 d)
  unfolding map_blob_resource send_command allocate_command_buffer
  Grows-map_blob_resource ctx id d = (_, (refl, refl), Grows-send command_queue _ _ _ d)

  pub fenced-type : (f : ℕ) (h : CtrlHdr) → (fenced f h).ctrl_type ≡ h.ctrl_type
  fenced-type f h = ground arith

  pub Grows-submit_command :
      (ctx : ℕ) (m : MemoryDescriptor) (buf_size size : ℕ) (ids : Option (List ℕ)) (n f o : ℕ)
      (d : Driver)
      → (b : VgpuBuffer) × IsSubmitOf m.virtual_address buf_size b
        × Grows (λ v. v.of_buffer b) d (submit_command os ctx m buf_size size ids n f o d).1
  unfolding submit_command allocate_command_buffer
  Grows-submit_command ctx m buf_size size ids n f o d =
      (_, (fenced-type f _, refl, refl), Grows-push_queue command_queue _ _ 0 _ d)
