-- ===== src/Ownership/Deletion.antt =====
-- The deletion of resources and contexts in kernelmode/vgpu/control.c keeps the invariant.
use mathlib.Core.Path.{subst}
use mvisor_win_vgpu_driver.Common.{
  ℕ, sym, ◌+◌, ◌≡◌, refl, Bool, true, false, Option, none, some, List, [], ◌∷◌, arith, ◌==◌,
  if◌then◌else◌, find_first, ◌||◌, sum_of, Bool-cases, inl, inr,
}
use mvisor_win_vgpu_driver.Memory.Bitmap.{RtlLaws}
use mvisor_win_vgpu_driver.Driver.{Driver, Context, Resource, ShareDescriptor, null}
use mvisor_win_vgpu_driver.Os.{Os}
use mvisor_win_vgpu_driver.Lookup.{get_virgl_context_from_list, has_context_id, found_context-id}
use mvisor_win_vgpu_driver.Control.Share.{
  delete_user_share_memory, release_backing, delete_resource,
}
use mvisor_win_vgpu_driver.Control.Contexts.{delete_resources, ctl_destroy_virgl_context}
use mvisor_win_vgpu_driver.Device.{process_notify, destroy_if_found}
use mvisor_win_vgpu_driver.Ownership.Totals.{Calm, Calm-refl}
use mvisor_win_vgpu_driver.Ownership.Commands.{
  Calm-unmap_blob_resource, Calm-detach_resource_backing, Calm-unref_resource,
  Calm-destroy_virgl_context,
}
use mvisor_win_vgpu_driver.Ownership.Invariant.{
  Owned, Extra, resource_weight, Owned-Calm, Owned-less, Owned-if,
}
use mvisor_win_vgpu_driver.Ownership.Completion.{Calm-log_effect}
use mvisor_win_vgpu_driver.Ownership.Taking.{remove_context-Owned}
use mvisor_win_vgpu_driver.Ownership.Steps.{free_memory-Owned}

pub found_again :
    (id : ℕ) (c : Context) (d : Driver)
    → get_virgl_context_from_list id d ≡ some c
    → get_virgl_context_from_list c.id d ≡ some c
unfolding get_virgl_context_from_list
found_again id c d e =
    subst (λ x. find_first (has_context_id x) d.contexts ≡ some c) (sym (found_context-id id d c e))
      e

Calm-delete_user_share_memory :
    (s : ShareDescriptor) (d : Driver) → Calm d (delete_user_share_memory s d)
unfolding delete_user_share_memory
Calm-delete_user_share_memory s d = elim (Bool-cases (s.user_address == null || s.mdl == null)) [
  | inl e ↦ rw e (Calm-refl d)
  | inr e ↦ rw e (Calm-log_effect _ d)
]

pub Calm-unshare :
    (r : Resource) (d : Driver)
    → Calm d (if r.buffer.share.mdl == null then d else delete_user_share_memory r.buffer.share d)
Calm-unshare r d = elim (Bool-cases (r.buffer.share.mdl == null)) [
  | inl e ↦ rw e (Calm-refl d)
  | inr e ↦ rw e (Calm-delete_user_share_memory r.buffer.share d)
]

module _ (os : Os) (laws : RtlLaws os.rtl) where
  release_backing-Owned :
      (e : Extra) (ctx : ℕ) (r : Resource) (d : Driver)
      → r.for_buffer ≡ true
      → Owned (λ f. resource_weight f r + e f) d
      → Owned e (release_backing os ctx r d)
  unfolding release_backing
  release_backing-Owned e ctx r d buffered o =
      Owned-if e r.for_blob _ _
        (λ blob. Owned-Calm e _ _ (Calm-log_effect _ _) (
          Owned-Calm e d _ (Calm-unmap_blob_resource os ctx r.id 0 d)
            (Owned-less _ e d (λ f. omega arith) o)))
        (λ plain. free_memory-Owned os laws e _ _ _ (
          Owned-Calm _ d _ (Calm-detach_resource_backing os r d)
            (Owned-less _ _ d (λ f. ground (arith, buffered, plain)) o)))

  -- A deleted resource gives its memory back.
  pub delete_resource-Owned :
      (e : Extra) (ctx : ℕ) (r : Resource) (d : Driver)
      → Owned (λ f. resource_weight f r + e f) d
      → Owned e (delete_resource os ctx r d)
  unfolding delete_resource
  delete_resource-Owned e ctx r d o = Owned-Calm e _ _ (Calm-unref_resource os ctx r.id _) (
      Owned-if e r.for_buffer _ _
        (λ buffered.
          release_backing-Owned e ctx r _ buffered (Owned-Calm _ d _ (Calm-unshare r d) o))
        (λ plain. Owned-less _ e d (λ f. omega arith) o))

  pub delete_resources-Owned :
      (e : Extra) (ctx : ℕ) (rs : List Resource) (d : Driver)
      → Owned (λ f. sum_of (resource_weight f) rs + e f) d
      → Owned e (delete_resources os ctx rs d)
  unfolding delete_resources
  delete_resources-Owned e ctx [] d o = Owned-less _ e d (λ f. omega arith) o
  delete_resources-Owned e ctx (r ∷ rs) d o = delete_resource-Owned e ctx r _ (
      delete_resources-Owned (λ f. resource_weight f r + e f) ctx rs d
        (Owned-less _ _ d (λ f. omega arith) o))

  -- A destroyed context gives all its memory back.
  pub destroy_context-Owned :
      (e : Extra) (id : ℕ) (c : Context) (d : Driver)
      → get_virgl_context_from_list id d ≡ some c
      → Owned e d
      → Owned e (ctl_destroy_virgl_context os c d).1
  unfolding ctl_destroy_virgl_context
  destroy_context-Owned e id c d at o = Owned-Calm e _ _ (Calm-destroy_virgl_context os c.id _) (
      delete_resources-Owned e c.id c.resources _
        (remove_context-Owned e c.id c d (found_again id c d at) o))

  destroy_if_found-Owned :
      (e : Extra) (id : ℕ) (found : Option Context) (d : Driver)
      → get_virgl_context_from_list id d ≡ found
      → Owned e d
      → Owned e (destroy_if_found os found d)
  destroy_if_found-Owned e id none d at o = o
  destroy_if_found-Owned e id (some c) d at o = destroy_context-Owned e id c d at o

  -- The end of a process keeps the invariant.
  pub process_notify-Owned :
      (e : Extra) (process : ℕ) (create : Bool) (d : Driver)
      → Owned e d
      → Owned e (process_notify os process create d)
  unfolding process_notify
  process_notify-Owned e process true d o = o
  process_notify-Owned e process false d o = destroy_if_found-Owned e process _ d refl o
