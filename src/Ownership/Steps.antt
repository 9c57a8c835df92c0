-- ===== src/Ownership/Steps.antt =====
-- The steps of the handlers of kernelmode/vgpu/control.c that take identifiers and memory, insert
-- resources and send commands: each keeps the invariant.
use native.Mathlib.Nat.{mod-eq_of_lt}
use mvisor_win_vgpu_driver.Common.{
  ℕ, ◌+◌, ◌*◌, ◌^◌, ◌<◌, ◌≡◌, ◌⊎◌, refl, true, Option, none, some, ◌∷◌, arith, ◌==◌, if◌then◌else◌,
}
use mvisor_win_vgpu_driver.Memory.{MemoryDescriptor, VgpuMemory, page_size}
use mvisor_win_vgpu_driver.Memory.Bitmap.{RtlLaws}
use mvisor_win_vgpu_driver.Driver.{Driver, Resource, VgpuBuffer}
use mvisor_win_vgpu_driver.Os.{Os}
use mvisor_win_vgpu_driver.Idr.{get_id_from_idr_without_cache}
use mvisor_win_vgpu_driver.Lookup.{has_context_id}
use mvisor_win_vgpu_driver.Interrupt.{free_memory}
use mvisor_win_vgpu_driver.Control.Resources.{next_resource_id, insert_resource, allocate}
use mvisor_win_vgpu_driver.Ownership.Memory.{
  Claim, Backs-less, allocate-Granted, free-Backs, descriptor_claim, Granted,
}
use mvisor_win_vgpu_driver.Ownership.Totals.{total, Grows, in_contexts-modify}
use mvisor_win_vgpu_driver.Ownership.Commands.{IsMapOf, IsSubmitOf}
use mvisor_win_vgpu_driver.Ownership.Invariant.{
  Owned, Extra, named, mapping, plain_named, claimed, resource_weight, buffer_weight, maps,
  Owned-moves,
}

-- The counter of the resource identifiers.
abbrev pub next_id : Driver → ℕ
next_id d = d.idrs.virgl_resource.id

pub Grows-insert_resource :
    (ctx : ℕ) (r : Resource) (d : Driver) → Grows (λ v. v.of_resource r) d (insert_resource ctx r d)
unfolding insert_resource
Grows-insert_resource ctx r d = record {
  memory = refl;
  idrs = refl;
  light = λ v. omega (
    arith,
    in_contexts-modify v.of_resource v.of_resource (has_context_id ctx)
        (λ c. record c { resources = r ∷ c.resources }) (v.of_resource r) d.contexts
        (λ c. omega arith) (λ r. omega arith),
  );
}

-- A resource is inserted with an identifier from below the counter, and unless it is a blob no
-- request to map one with its identifier is outstanding.
pub insert_resource-Owned :
    (e : Extra) (ctx : ℕ) (r : Resource) (d : Driver)
    → r.id < next_id d
    → (r.for_blob ≡ true) ⊎ (total (mapping r.id) d ≡ 0)
    → Owned (λ f. resource_weight f r + e f) d
    → Owned e (insert_resource ctx r d)
insert_resource-Owned e ctx r d old free o =
    Owned-moves (λ v. v.of_resource r) _ e d _ (Grows-insert_resource ctx r d) (λ f. omega arith)
      (λ j h. ground arith) (λ j h. ground (arith, o.blobs j, free)) o

-- The next identifier is below the counter that it leaves behind, and nothing bears it.
pub next_resource_id-Owned :
    (e : Extra) (d : Driver)
    → next_id d < 2 ^ 32
    → Owned e d
    → let (id, d') = next_resource_id d in
      Owned e d' × (id < next_id d') × (total (named id) d' ≡ 0)
unfolding next_resource_id get_id_from_idr_without_cache
next_resource_id-Owned e d room o =
    let m = mod-eq_of_lt {n = next_id d} {m = 2 ^ 32} room in
    let m' = mod-eq_of_lt {n = next_id d + 1} {m = 2 ^ 64} (omega arith) in
    rw (m, m')
      (
        record { backs = o.backs; fresh = λ j h. o.fresh j (omega (arith, h)); blobs = o.blobs },
        omega arith,
        o.fresh (next_id d) (omega arith),
      )

weight_of-map :
    (id : ℕ) (b : VgpuBuffer)
    → IsMapOf id b
    → ((f : Claim → ℕ) → buffer_weight f b ≡ 0) × ((j : ℕ) → maps j b ≡ (if id == j then 1 else 0))
weight_of-map id b (t, at) = (λ f. rw t refl, λ j. rw (t, at) refl)

weight_of-submit :
    (address size : ℕ) (b : VgpuBuffer)
    → IsSubmitOf address size b
    → ((f : Claim → ℕ) → buffer_weight f b ≡ f (record { address = address; size = size }))
      × ((j : ℕ) → maps j b ≡ 0)
weight_of-submit address size b (t, at, n) = (λ f. rw (t, at, n) refl, λ j. rw t refl)

-- A new request to map a blob: nothing but blobs bears its identifier.
pub map_request-Owned :
    (e : Extra) (id : ℕ) (b : VgpuBuffer) (d d' : Driver)
    → IsMapOf id b
    → Grows (λ v. v.of_buffer b) d d'
    → id < next_id d
    → total (plain_named id) d ≡ 0
    → Owned e d
    → Owned e d'
map_request-Owned e id b d d' is g old blob o =
    let w = weight_of-map id b is in
    Owned-moves (λ v. v.of_buffer b) e e d d' g (λ f. omega (arith, w.0 f))
      (λ j h. ground (arith, w.1 j)) (λ j h. ground (arith, w.1 j, o.blobs j, blob, h)) o

-- A new command takes over the memory that the handler holds.
pub submit-Owned :
    (e : Extra) (address size : ℕ) (b : VgpuBuffer) (d d' : Driver)
    → IsSubmitOf address size b
    → Grows (λ v. v.of_buffer b) d d'
    → Owned (λ f. f (record { address = address; size = size }) + e f) d
    → Owned e d'
submit-Owned e address size b d d' is g o =
    let w = weight_of-submit address size b is in
    Owned-moves (λ v. v.of_buffer b) _ e d d' g (λ f. omega (arith, w.0 f)) (λ j h. w.1 j)
      (λ j h. omega (arith, w.1 j, o.blobs j (omega (arith, w.1 j, h)))) o

abbrev pub GrantedTo : Extra → ℕ → Option MemoryDescriptor → Driver → Type 0
GrantedTo e size none d = Owned e d
GrantedTo e size (some m) d = Owned (λ f. f (descriptor_claim m size) + e f) d

GrantedTo-memory :
    (e : Extra) (size : ℕ) (found : Option MemoryDescriptor) (m : VgpuMemory) (d : Driver)
    → Granted (claimed e d) size found m
    → Owned e d
    → GrantedTo e size found (record d { memory = m })
GrantedTo-memory e size none m d g o = record { backs = g; fresh = o.fresh; blobs = o.blobs }
GrantedTo-memory e size (some x) m d g o = record {
  backs = Backs-less _ _ m (λ f. omega arith) g;
  fresh = o.fresh;
  blobs = o.blobs;
}

module _ (os : Os) (laws : RtlLaws os.rtl) where
  pub allocate-Owned :
      (e : Extra) (n : ℕ) (d : Driver)
      → Owned e d
      → let (found, d') = allocate os (n * page_size) d in GrantedTo e (n * page_size) found d'
  unfolding allocate
  allocate-Owned e n d o =
      GrantedTo-memory e (n * page_size) _ _ d
        (allocate-Granted os.rtl laws n (claimed e d) d.memory o.backs) o

  pub free_memory-Owned :
      (e : Extra) (address size : ℕ) (d : Driver)
      → Owned (λ f. f (record { address = address; size = size }) + e f) d
      → Owned e (free_memory os address size d)
  free_memory-Owned e address size d o = record {
    backs =
        free-Backs os.rtl laws (record { address = address; size = size }) _ (claimed e d) d.memory
          (λ f. omega arith) o.backs;
    fresh = o.fresh;
    blobs = o.blobs;
  }
