-- ===== src/Ownership/Creation.antt =====
-- The handlers of kernelmode/vgpu/control.c that create resources keep the invariant.
use mvisor_win_vgpu_driver.Common.{
  ℕ, ◌+◌, ◌*◌, ◌/◌, ◌%◌, ◌^◌, ◌≤◌, ◌<◌, ◌≡◌, inl, inr, refl, [], ◌∷◌, sum_of, Option, none, some,
  List, arith, ◌==◌, Bool-cases,
}
use mvisor_win_vgpu_driver.Memory.{MemoryDescriptor, page_size}
use mvisor_win_vgpu_driver.Memory.Bitmap.{RtlLaws}
use mvisor_win_vgpu_driver.Driver.{Driver, Resource, VgpuBuffer, status_insufficient_resources}
use mvisor_win_vgpu_driver.Os.{Os}
use mvisor_win_vgpu_driver.Exec.{◌>>=◌, ◌>>◌, return}
use mvisor_win_vgpu_driver.Request.{Request, call_driver, update_driver}
use mvisor_win_vgpu_driver.Command.Send.{attach_resource_backing, map_blob_resource}
use mvisor_win_vgpu_driver.Control.Resources.{
  non_null, next_resource_id, insert_resource, backing_size, allocate, backed, blob, create_backing,
  ctl_create_resource, ctl_create_blob_resource,
}
use mvisor_win_vgpu_driver.Ownership.Memory.{Claim, descriptor_claim}
use mvisor_win_vgpu_driver.Ownership.Totals.{total, Calm, in_contexts-less}
use mvisor_win_vgpu_driver.Ownership.Commands.{
  Calm-create_3d_resource, Calm-create_blob_resource, Calm-attach_resource_backing,
  Grows-map_blob_resource,
}
use mvisor_win_vgpu_driver.Ownership.Invariant.{
  Owned, Extra, nothing, named, mapping, plain_named, names, names_plain, resource_weight,
  Owned-Calm, Owned-less,
}
use mvisor_win_vgpu_driver.Ownership.Steps.{
  next_id, next_resource_id-Owned, insert_resource-Owned, Grows-insert_resource, map_request-Owned,
  allocate-Owned, GrantedTo,
}
use mvisor_win_vgpu_driver.Ownership.Statements.{
  Ends, Ends-bind, Ends-return, Ends-leave_with, Ends-non_null, Ends-call_driver,
  Ends-update_driver, Ends-if, Ends-current_context, Current, Stays-retrieve_input,
  Stays-retrieve_output, Stays-write_output,
}

-- The invariant, and room for an identifier.
abbrev pub Ready : Driver → Type 0
Ready d = Owned nothing d × (next_id d < 2 ^ 32)

-- An identifier that was taken and that nothing bears yet, while the handler holds claims.
pub record New (e : Extra) (id : ℕ) (d : Driver) : Type 0 where
  pub owned : Owned e d
  pub taken : id < next_id d
  pub unused : total (named id) d ≡ 0

New-Calm : (e : Extra) (id : ℕ) (d d' : Driver) → Calm d d' → New e id d → New e id d'
New-Calm e id d d' c n = record {
  owned = Owned-Calm e d d' c n.owned;
  taken = rw c.idrs n.taken;
  unused = omega (arith, n.unused, c.light (named id));
}

New-less :
    (e e' : Extra) (id : ℕ) (d : Driver) → ((f : Claim → ℕ) → e' f ≤ e f) → New e id d → New e' id d
New-less e e' id d less n = record {
  owned = Owned-less e e' d less n.owned;
  taken = n.taken;
  unused = n.unused;
}

New-next : (d : Driver) → Ready d → New nothing (next_resource_id d).0 (next_resource_id d).1
New-next d (o, room) =
    let n = next_resource_id-Owned nothing d room o in
    record { owned = n.0; taken = n.1; unused = n.2 }

sum_of-zero : (bs : List VgpuBuffer) → sum_of (λ b. 0) bs ≡ 0
sum_of-zero [] = refl
sum_of-zero (b ∷ bs) = omega (arith, sum_of-zero bs)

unused-mapping : (id : ℕ) (d : Driver) → total (named id) d ≡ 0 → total (mapping id) d ≡ 0
unused-mapping id d e =
    omega (arith, e, in_contexts-less (λ r. 0) (names id) d.contexts (λ r. omega arith))

unused-plain : (id : ℕ) (d : Driver) → total (named id) d ≡ 0 → total (plain_named id) d ≡ 0
unused-plain id d e =
    let none_there = in_contexts-less (names_plain id) (names id) d.contexts (λ r. ground arith) in
    omega (arith, e, none_there, sum_of-zero d.command_queue, sum_of-zero d.control_queue)

backing_size-pages : (size : ℕ) → (n : ℕ) × (backing_size size ≡ n * page_size)
unfolding backing_size
backing_size-pages size = elim (Bool-cases (size == 0)) [
  | inl e ↦ (1, rw e refl)
  | inr e ↦ ((size + 4095) % 2 ^ 32 / page_size, rw e refl)
]

module _ (os : Os) (laws : RtlLaws os.rtl) where
  allocate-New :
      (id size : ℕ) (d : Driver)
      → New nothing id d
      → let (found, d') = allocate os (backing_size size) d in
        GrantedTo nothing (backing_size size) found d'
        × (id < next_id d')
        × (total (named id) d' ≡ 0)
  unfolding allocate
  allocate-New id size d n =
      let (k, e) = backing_size-pages size in
      (rw e (allocate-Owned os laws nothing k d n.owned), n.taken, n.unused)

  -- A resource that the handler is about to insert, with the claim that it comes with.
  abbrev Made : ℕ → Resource → Driver → Type 0
  Made id r d = New (λ f. resource_weight f r + nothing f) id d × (r.id ≡ id)

  pub found-Ends :
      (size id : ℕ) (found : Option MemoryDescriptor)
      → Ends
          (λ d.
            GrantedTo nothing (backing_size size) found d
            × (id < next_id d)
            × (total (named id) d ≡ 0))
          (non_null found status_insufficient_resources)
          (λ m d. New (λ f. f (descriptor_claim m (backing_size size)) + nothing f) id d)
  found-Ends size id none = Ends-leave_with _ (λ d h. h.0)
  found-Ends size id (some m) =
      Ends-return m (λ d h. record { owned = h.0; taken = h.1; unused = h.2 })

  create_backed-Ends :
      (ctx id size : ℕ) (stale : Resource)
      → Ends
          (New nothing id)
          (do
            found ← call_driver (allocate os (backing_size size))
            memory ← non_null found status_insufficient_resources
            let r = backed stale id (backing_size size) memory
            update_driver (attach_resource_backing os ctx r)
            return r)
          (Made id)
  create_backed-Ends ctx id size stale =
      Ends-bind
        (λ found d.
          GrantedTo nothing (backing_size size) found d
          × (id < next_id d)
          × (total (named id) d ≡ 0))
        _ _ (Ends-call_driver _ (λ d n. allocate-New id size d n))
        (λ found.
          Ends-bind (λ m d. New (λ f. f (descriptor_claim m (backing_size size)) + nothing f) id d)
            _ _ (found-Ends size id found)
            (λ m.
              let r = backed stale id (backing_size size) m in
              Ends-bind (λ _. Made id r) _ _
                (Ends-update_driver _
                  (λ d n. (New-Calm _ id d _ (Calm-attach_resource_backing os ctx r d) n, refl)))
                (λ _. Ends-return _ (λ d h. h))))

  create_backing-Ends :
      (ctx id size : ℕ) (stale : Resource)
      → Ends (New nothing id) (create_backing os ctx stale id size) (Made id)
  unfolding create_backing
  create_backing-Ends ctx id size stale =
      Ends-if (size == 1) _ _
        (Ends-return _ (λ d n. (New-less nothing _ id d (λ f. omega arith) n, refl)))
        (create_backed-Ends ctx id size stale)

  insert-Made :
      (ctx id : ℕ) (r : Resource) (d : Driver)
      → Made id r d
      → Owned nothing (insert_resource ctx r d)
  insert-Made ctx id r d (n, e) =
      insert_resource-Owned nothing ctx r d (rw e n.taken)
        (inr (rw e (unused-mapping id d n.unused))) n.owned

  -- `CtlCreateResource`, from the checks to the resource in the list.
  pub create_resource-Ends :
      (request : Request) → Ends Ready (ctl_create_resource os request) (λ _. Owned nothing)
  unfolding ctl_create_resource
  create_resource-Ends request =
      Ends-bind (λ _. Ready) _ _ (Stays-retrieve_input Ready (λ d h. h.0) request _)
        (λ _.
          Ends-bind (λ _. Ready) _ _ (Stays-retrieve_output Ready (λ d h. h.0) request _)
            (λ status.
              Ends-bind (Current Ready (λ d h. h.0) os) _ _
                (Ends-current_context Ready (λ d h. h.0) os)
                (λ c.
                  Ends-bind (λ _. Ready) _ _ (Ends-non_null _ _ (λ d h. h.0.0) (λ stale d e h. h.0))
                    (λ stale. Ends-bind (New nothing) _ _ (Ends-call_driver _ New-next) (λ id.
                      Ends-bind (λ _. New nothing id) _ _
                        (Ends-update_driver _ (λ d n.
                          New-Calm nothing id d _ (Calm-create_3d_resource os c.id id _ 0 d) n))
                        (λ _. Ends-bind (Made id) _ _ (create_backing-Ends c.id id _ stale) (λ r.
                          Ends-bind (λ _. Owned nothing) _ _
                            (Ends-update_driver _ (λ d m. insert-Made c.id id r d m))
                            (λ _.
                              Ends-bind (λ _. Owned nothing) _ _ (Stays-write_output _ _)
                                (λ _. Ends-return _ (λ d h. h))))))))))

  -- A blob that is in the list, and whose mapping has not been asked for.
  abbrev Inserted : ℕ → Driver → Type 0
  Inserted id d = Owned nothing d × (id < next_id d) × (total (plain_named id) d ≡ 0)

  insert_blob :
      (ctx id : ℕ) (stale : Resource) (d : Driver)
      → New nothing id d
      → Inserted id (insert_resource ctx (blob stale id) d)
  insert_blob ctx id stale d n =
      let r = blob stale id in
      let g = Grows-insert_resource ctx r d in
      let no_plain : names_plain id r ≡ 0 = ground arith in
      (
        insert_resource-Owned nothing ctx r d n.taken (inl refl)
            (Owned-less nothing _ d (λ f. omega arith) n.owned),
        rw g.idrs n.taken,
        omega (arith, g.light (plain_named id), unused-plain id d n.unused, no_plain),
      )

  map_blob :
      (ctx id : ℕ) (d : Driver) → Inserted id d → Owned nothing (map_blob_resource os ctx id 0 d)
  map_blob ctx id d (o, taken, none_plain) =
      let (b, is, g) = Grows-map_blob_resource os ctx id d in
      map_request-Owned nothing id b d _ is g taken none_plain o

  -- `CtlCreateBlobResource`: the blob is in the list before its mapping is asked for.
  pub create_blob_resource-Ends :
      (request : Request) → Ends Ready (ctl_create_blob_resource os request) (λ _. Owned nothing)
  unfolding ctl_create_blob_resource
  create_blob_resource-Ends request =
      Ends-bind (λ _. Ready) _ _ (Stays-retrieve_input Ready (λ d h. h.0) request _)
        (λ _.
          Ends-bind (λ _. Ready) _ _ (Stays-retrieve_output Ready (λ d h. h.0) request _)
            (λ _.
              Ends-bind (Current Ready (λ d h. h.0) os) _ _
                (Ends-current_context Ready (λ d h. h.0) os)
                (λ c.
                  Ends-bind (λ _. Ready) _ _ (Ends-non_null _ _ (λ d h. h.0.0) (λ stale d e h. h.0))
                    (λ stale. Ends-bind (New nothing) _ _ (Ends-call_driver _ New-next) (λ id.
                      Ends-bind (λ _. New nothing id) _ _
                        (Ends-update_driver _ (λ d n.
                          New-Calm nothing id d _ (Calm-create_blob_resource os c.id id _ 0 d) n))
                        (λ _.
                          Ends-bind (λ _. Inserted id) _ _
                            (Ends-update_driver _ (λ d n. insert_blob c.id id stale d n))
                            (λ _.
                              Ends-bind (λ _. Owned nothing) _ _
                                (Ends-update_driver _ (λ d h. map_blob c.id id d h))
                                (λ _.
                                  Ends-bind (λ _. Owned nothing) _ _ (Stays-write_output _ _)
                                    (λ _. Ends-return _ (λ d h. h))))))))))
