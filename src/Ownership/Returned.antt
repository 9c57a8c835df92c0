-- ===== src/Ownership/Returned.antt =====
-- The end of a process in kernelmode/vgpu gives back the memory of all its resources.
use mvisor_win_vgpu_driver.Common.{
  ℕ, ◌+◌, ◌≡◌, refl, Bool, true, false, some, List, [], ◌∷◌, arith, ◌==◌, if◌then◌else◌, sum_of,
}
use mvisor_win_vgpu_driver.Memory.{VgpuMemory}
use mvisor_win_vgpu_driver.Memory.Bitmap.{RtlLaws}
use mvisor_win_vgpu_driver.Driver.{Driver, Context, Resource, null}
use mvisor_win_vgpu_driver.Os.{Os}
use mvisor_win_vgpu_driver.Lookup.{get_virgl_context_from_list}
use mvisor_win_vgpu_driver.Command.Send.{detach_resource_backing}
use mvisor_win_vgpu_driver.Interrupt.{free_memory}
use mvisor_win_vgpu_driver.Control.Share.{
  delete_user_share_memory, release_backing, delete_resource,
}
use mvisor_win_vgpu_driver.Control.Contexts.{
  remove_context, delete_resources, ctl_destroy_virgl_context,
}
use mvisor_win_vgpu_driver.Device.{process_notify}
use mvisor_win_vgpu_driver.Ownership.Memory.{
  Claim, Gives, Gives-refl, Gives-trans, Gives-same, free-Gives,
}
use mvisor_win_vgpu_driver.Ownership.Totals.{Calm}
use mvisor_win_vgpu_driver.Ownership.Commands.{
  Calm-unmap_blob_resource, Calm-detach_resource_backing, Calm-unref_resource,
  Calm-destroy_virgl_context,
}
use mvisor_win_vgpu_driver.Ownership.Invariant.{
  Owned, Extra, nothing, claimed, resource_weight, resource_claim, Owned-Calm, Owned-less,
}
use mvisor_win_vgpu_driver.Ownership.Taking.{remove_context-Owned}
use mvisor_win_vgpu_driver.Ownership.Deletion.{found_again, delete_resources-Owned, Calm-unshare}

-- The memory that lists of resources hold, under a measure of claims.
abbrev pub held : List Resource → (Claim → ℕ) → ℕ
held rs f = sum_of (resource_weight f) rs

Calm-after :
    (w : Extra) (m : VgpuMemory) (d d' : Driver)
    → Calm d d'
    → Gives w m d.memory
    → Gives w m d'.memory
Calm-after w m d d' c g = rw (c.memory) g

Calm-before :
    (w : Extra) (m : VgpuMemory) (d d' : Driver)
    → Calm d d'
    → Gives w d'.memory m
    → Gives w d.memory m
Calm-before w m d d' c g = rw (← c.memory) g

either-Gives :
    (b : Bool) (x y : Driver) (w : Extra) (m : VgpuMemory)
    → (b ≡ true → Gives w m x.memory)
    → (b ≡ false → Gives w m y.memory)
    → Gives w m (if b then x else y).memory
either-Gives true x y w m set clear = set refl
either-Gives false x y w m set clear = clear refl

module _ (os : Os) (laws : RtlLaws os.rtl) where
  free_memory-Gives :
      (e : Extra) (c : Claim) (d : Driver)
      → Owned (λ f. f c + e f) d
      → Gives (λ f. f c) d.memory (free_memory os c.address c.size d).memory
  free_memory-Gives e c d o =
      free-Gives os.rtl laws c _ (claimed e d) d.memory (λ f. omega arith) o.backs

  release_backing-Gives :
      (e : Extra) (ctx : ℕ) (r : Resource) (d : Driver)
      → r.for_buffer ≡ true
      → Owned (λ f. resource_weight f r + e f) d
      → Gives (λ f. resource_weight f r) d.memory (release_backing os ctx r d).memory
  unfolding release_backing
  release_backing-Gives e ctx r d buffered o =
      either-Gives r.for_blob _ _ _ d.memory
        (λ blob.
          Gives-same (λ f. 0) _ _ _ (λ f. ground (arith, blob))
            (Calm-after _ _ d _ (Calm-unmap_blob_resource os ctx r.id 0 d) (Gives-refl d.memory)))
        (λ plain.
          let detached = detach_resource_backing os r d in
          let c = Calm-detach_resource_backing os r d in
          let claim = resource_claim r in
          let here : Owned (λ f. f claim + e f) detached =
            Owned-Calm _ d _ c (Owned-less _ _ d (λ f. ground (arith, buffered, plain)) o) in
          Gives-same (λ f. f claim) _ _ _ (λ f. ground (arith, buffered, plain))
            (Calm-before _ _ d detached c (free_memory-Gives e claim detached here)))

  delete_resource-Gives :
      (e : Extra) (ctx : ℕ) (r : Resource) (d : Driver)
      → Owned (λ f. resource_weight f r + e f) d
      → Gives (λ f. resource_weight f r) d.memory (delete_resource os ctx r d).memory
  unfolding delete_resource
  delete_resource-Gives e ctx r d o =
      let unshared =
        if r.buffer.share.mdl == null then d else delete_user_share_memory r.buffer.share d in
      let u = Calm-unshare r d in
      Calm-after _ _ (if r.for_buffer then release_backing os ctx r unshared else d) _
        (Calm-unref_resource os ctx r.id _)
        (either-Gives r.for_buffer (release_backing os ctx r unshared) d _ d.memory
          (λ buffered.
            Calm-before _ _ d unshared u
              (release_backing-Gives e ctx r unshared buffered (Owned-Calm _ d _ u o)))
          (λ plain. Gives-same (λ f. 0) _ _ _ (λ f. ground (arith, plain)) (Gives-refl d.memory)))

  delete_resources-Gives :
      (e : Extra) (ctx : ℕ) (rs : List Resource) (d : Driver)
      → Owned (λ f. held rs f + e f) d
      → Gives (held rs) d.memory (delete_resources os ctx rs d).memory
  unfolding delete_resources
  delete_resources-Gives e ctx [] d o = Gives-refl d.memory
  delete_resources-Gives e ctx (r ∷ rs) d o =
      let with_r : Extra = λ f. resource_weight f r + e f in
      let here = Owned-less _ (λ f. held rs f + with_r f) d (λ f. omega arith) o in
      let rest = delete_resources os ctx rs d in
      let last =
        delete_resource-Gives e ctx r rest (delete_resources-Owned os laws with_r ctx rs d here) in
      Gives-same _ _ _ _ (λ f. omega arith)
        (Gives-trans (held rs) (λ f. resource_weight f r) _ _ _
          (delete_resources-Gives with_r ctx rs d here) last)

  destroy-Gives :
      (id : ℕ) (c : Context) (d : Driver)
      → get_virgl_context_from_list id d ≡ some c
      → Owned nothing d
      → Gives (held c.resources) d.memory (ctl_destroy_virgl_context os c d).1.memory
  unfolding ctl_destroy_virgl_context
  destroy-Gives id c d at o =
      let gone = remove_context c.id d in
      let rest = delete_resources os c.id c.resources gone in
      let taken = remove_context-Owned nothing c.id c d (found_again id c d at) o in
      Calm-after _ _ rest _ (Calm-destroy_virgl_context os c.id rest)
        (delete_resources-Gives nothing c.id c.resources gone taken)

  -- With a lawful bitmap search, and while the invariant holds, the end of a process gives all the
  -- guest memory of its resources back, blobs aside, and nothing more: what is available grows by
  -- their sizes, and of the allocated pages exactly theirs become free.
  pub process_notify-Gives :
      (id : ℕ) (c : Context) (d : Driver)
      → get_virgl_context_from_list id d ≡ some c
      → Owned nothing d
      → Gives (held c.resources) d.memory (process_notify os id false d).memory
  unfolding process_notify
  process_notify-Gives id c d at o = rw at (destroy-Gives id c d at o)
