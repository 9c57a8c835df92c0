-- ===== src/Host/Steps.antt =====
-- Deleting resources and contexts, in kernelmode/vgpu/control.c, and transfers: the commands are in
-- order for the host.
use mathlib.Core.Path.{subst}
use mvisor_win_vgpu_driver.Common.{
  ℕ, ◌+◌, ◌<◌, ◌≡◌, ◌≢◌, refl, Bool, true, false, ◌||◌, some, List, [], ◌∷◌, arith, ◌==◌, ltb,
  ltb→lt, ltb→le, if◌then◌else◌, Bool-cases, inl, inr, sum_of,
}
use mvisor_win_vgpu_driver.Wire.{CtrlType}
use mvisor_win_vgpu_driver.Driver.{Driver, Context, Resource, ShareDescriptor, null}
use mvisor_win_vgpu_driver.Os.{Os}
use mvisor_win_vgpu_driver.Lookup.{get_virgl_context_from_list}
use mvisor_win_vgpu_driver.Command.Send.{
  unmap_blob_resource, detach_resource_backing, unref_resource,
}
use mvisor_win_vgpu_driver.Interrupt.{free_memory}
use mvisor_win_vgpu_driver.Control.Share.{
  delete_user_share_memory, release_backing, delete_resource,
}
use mvisor_win_vgpu_driver.Control.Contexts.{delete_resources, ctl_destroy_virgl_context}
use mvisor_win_vgpu_driver.Ownership.Completion.{Calm-log_effect}
use mvisor_win_vgpu_driver.Ownership.Deletion.{found_again}
use mvisor_win_vgpu_driver.Ownership.Taking.{Drops-remove_context}
use mvisor_win_vgpu_driver.Host.{
  HostState, absent, bare, backed, unmapped, mapped, state_index, transition,
}
use mvisor_win_vgpu_driver.Host.Invariant.{
  Hands, holds, seen, view, bears, Follows, Follows-less, Follows-Calm, Follows-state,
}
use mvisor_win_vgpu_driver.Host.Sending.{
  Accepting, Follows-move, send_command-Sends, Follows-destroy_virgl_context,
}

-- A resource that the host knows has an identifier below the counter.
Follows-known :
    (id : ℕ) (s : HostState) (e : Hands) (d : Driver)
    → state_index s ≢ 0
    → Follows (holds id s e) d
    → id < d.idrs.virgl_resource.id
Follows-known id s e d there f = elim (Bool-cases (ltb id d.idrs.virgl_resource.id)) [
  | inl below ↦ ltb→lt _ _ below
  | inr above ↦
      let at = Follows-state id s e d f in
      let gone = f.unknown id (ltb→le _ _ above) in absurd (there (ground (arith, at, gone)))
]

dropped : (id : ℕ) (s : HostState) (e : Hands) (d : Driver) → Follows (holds id s e) d → Follows e d
dropped id s e d f = Follows-less _ e d (λ i t. omega arith) f

Follows-delete_share :
    (s : ShareDescriptor) (e : Hands) (d : Driver)
    → Follows e d
    → Follows e (delete_user_share_memory s d)
unfolding delete_user_share_memory
Follows-delete_share s e d f = elim (Bool-cases (s.user_address == null || s.mdl == null)) [
  | inl x ↦ rw x f
  | inr x ↦ rw x (Follows-Calm e d _ (Calm-log_effect _ d) refl f)
]

Follows-unshare :
    (r : Resource) (e : Hands) (d : Driver)
    → Follows e d
    → Follows e
        (if r.buffer.share.mdl == null then d else delete_user_share_memory r.buffer.share d)
Follows-unshare r e d f = elim (Bool-cases (r.buffer.share.mdl == null)) [
  | inl x ↦ rw x f
  | inr x ↦ rw x (Follows-delete_share r.buffer.share e d f)
]

as_state :
    {s t : HostState} (id : ℕ) (e : Hands) (d : Driver)
    → s ≡ t
    → Follows (holds id s e) d
    → Follows (holds id t e) d
as_state id e d at f = subst (λ x. Follows (holds id x e) d) at f

Follows-if :
    {e : Hands} (b : Bool) (x y : Driver)
    → (b ≡ true → Follows e x)
    → (b ≡ false → Follows e y)
    → Follows e (if b then x else y)
Follows-if true x y set clear = set refl
Follows-if false x y set clear = clear refl

module _ (os : Os) (accepts : Accepting os) where
  Follows-unmap :
      (ctx id : ℕ) (e : Hands) (d : Driver)
      → Follows (holds id mapped e) d
      → Follows (holds id unmapped e) (unmap_blob_resource os ctx id 0 d)
  unfolding unmap_blob_resource
  Follows-unmap ctx id e d f =
      Follows-move _ _ mapped unmapped e d _ (send_command-Sends os accepts _ _ _ _ d) refl
        (inr (Follows-known id mapped e d (omega arith) f)) f

  Follows-detach :
      (r : Resource) (e : Hands) (d : Driver)
      → Follows (holds r.id backed e) d
      → Follows (holds r.id bare e) (detach_resource_backing os r d)
  unfolding detach_resource_backing
  Follows-detach r e d f =
      Follows-move _ _ backed bare e d _ (send_command-Sends os accepts _ _ _ _ d) refl
        (inr (Follows-known r.id backed e d (omega arith) f)) f

  Follows-unref :
      (ctx id : ℕ) (s : HostState) (e : Hands) (d : Driver)
      → transition CtrlType.resource_unref s ≡ some absent
      → Follows (holds id s e) d
      → Follows e (unref_resource os ctx id d)
  unfolding unref_resource
  Follows-unref ctx id s e d step f =
      dropped id absent e _ (
        Follows-move _ _ s absent e d _ (send_command-Sends os accepts _ _ _ _ d) step (inl refl) f)

  Follows-free_memory :
      (va size : ℕ) (e : Hands) (d : Driver) → Follows e d → Follows e (free_memory os va size d)
  Follows-free_memory va size e d f = record {
    table = f.table;
    in_order = f.in_order;
    agrees = f.agrees;
    unknown = f.unknown;
  }

  -- What a resource with a buffer is left in.
  abbrev freed : Resource → HostState
  freed r = if r.for_blob then unmapped else bare

  freed_blob : (r : Resource) → r.for_blob ≡ true → unmapped ≡ freed r
  freed_blob r e = ground arith

  freed_guest : (r : Resource) → r.for_blob ≡ false → bare ≡ freed r
  freed_guest r e = ground arith

  unref-freed : (r : Resource) → transition CtrlType.resource_unref (freed r) ≡ some absent
  unref-freed r = ground arith

  Follows-release_backing :
      (ctx : ℕ) (r : Resource) (e : Hands) (d : Driver)
      → r.for_buffer ≡ true
      → Follows (holds r.id (view r) e) d
      → Follows (holds r.id (freed r) e) (release_backing os ctx r d)
  unfolding release_backing
  Follows-release_backing ctx r e d buffered f =
      Follows-if r.for_blob _ _
        (λ blob.
          let at : view r ≡ mapped = ground arith in
          Follows-Calm _ _ _ (Calm-log_effect _ _) refl (
            as_state r.id e _ (freed_blob r blob)
              (Follows-unmap ctx r.id e d (as_state r.id e d at f))))
        (λ guest.
          let at : view r ≡ backed = ground arith in
          Follows-free_memory _ _ _ _ (
            as_state r.id e _ (freed_guest r guest)
              (Follows-detach r e d (as_state r.id e d at f))))

  -- A resource is at the host as the driver takes it to be, so what gives its backing back and
  -- unreferences it is in order.
  pub Follows-delete_resource :
      (ctx : ℕ) (r : Resource) (e : Hands) (d : Driver)
      → Follows (holds r.id (view r) e) d
      → Follows e (delete_resource os ctx r d)
  unfolding delete_resource
  Follows-delete_resource ctx r e d f = elim (Bool-cases r.for_buffer) [
    | inl buffered ↦ simp buffered (
        Follows-unref ctx r.id (freed r) e _ (unref-freed r)
          (Follows-release_backing ctx r e _ buffered (Follows-unshare r _ d f)))
    | inr plain ↦
        let at : view r ≡ bare = ground arith in
        simp plain (Follows-unref ctx r.id bare e d refl (as_state r.id e d at f))
  ]

  -- What a handler holds of a list of resources.
  abbrev holds_all : List Resource → Hands → Hands
  holds_all rs e i s = sum_of (bears i s) rs + e i s

  delete_resources-Follows :
      (ctx : ℕ) (rs : List Resource) (e : Hands) (d : Driver)
      → Follows (holds_all rs e) d
      → Follows e (delete_resources os ctx rs d)
  unfolding delete_resources
  delete_resources-Follows ctx [] e d f = Follows-less _ e d (λ i s. omega arith) f
  delete_resources-Follows ctx (r ∷ rs) e d f = Follows-delete_resource ctx r e _ (
      delete_resources-Follows ctx rs (holds r.id (view r) e) d
        (Follows-less _ _ d (λ i s. ground arith) f))

  pub Follows-destroy :
      (id : ℕ) (c : Context) (e : Hands) (d : Driver)
      → get_virgl_context_from_list id d ≡ some c
      → Follows e d
      → Follows e (ctl_destroy_virgl_context os c d).1
  unfolding ctl_destroy_virgl_context
  Follows-destroy id c e d at f =
      let g = Drops-remove_context c.id c d (found_again id c d at) in
      Follows-destroy_virgl_context os accepts c.id e _ (
        delete_resources-Follows c.id c.resources e _ (record {
          table = f.table;
          in_order = f.in_order;
          agrees = λ i s. omega (arith, f.agrees i s, g.light (seen i s));
          unknown = f.unknown;
        }))
