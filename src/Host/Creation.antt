-- ===== src/Host/Creation.antt =====
-- The handlers of kernelmode/vgpu/control.c that create resources: their commands are in order for
-- the host, and the resource that is inserted is there.
use mvisor_win_vgpu_driver.Common.{ℕ, ◌^◌, ◌<◌, ◌≡◌, refl, arith, ◌==◌}
use mvisor_win_vgpu_driver.Wire.{BlobResourceCreateParam, ResourceCreateParam}
use mvisor_win_vgpu_driver.Driver.{Driver, Resource}
use mvisor_win_vgpu_driver.Os.{Os}
use mvisor_win_vgpu_driver.Request.{Request}
use mvisor_win_vgpu_driver.Command.Send.{
  map_blob_resource, create_3d_resource, create_blob_resource,
}
use mvisor_win_vgpu_driver.Control.Resources.{
  insert_resource, backing_size, allocate, backed, blob, create_backing, ctl_create_resource,
  ctl_create_blob_resource,
}
use mvisor_win_vgpu_driver.Control.Triples.{
  Triple, Ends-bind, Ends-return, Ends-non_null, Ends-call_driver, Ends-update_driver, Ends-if,
  Ends-current_context, Current, Stays-retrieve_input, Stays-retrieve_output, Stays-write_output,
}
use mvisor_win_vgpu_driver.Ownership.Commands.{Calm-create_3d_resource, Calm-create_blob_resource}
use mvisor_win_vgpu_driver.Ownership.Steps.{next_id, Grows-insert_resource}
use mvisor_win_vgpu_driver.Host.{HostState, absent, bare, unmapped}
use mvisor_win_vgpu_driver.Host.Invariant.{empty, holds, view, Follows, Follows-less}
use mvisor_win_vgpu_driver.Host.Sending.{
  Accepting, Follows-create_3d_resource, Follows-create_blob_resource, Follows-map_blob_resource,
  Follows-attach_resource_backing,
}
use mvisor_win_vgpu_driver.Host.Taking.{
  next_resource_id-Follows, insert_resource-Follows, allocate-Follows,
}

-- The invariant while a handler holds nothing.
abbrev pub Tracked : Driver → Type 0
Tracked = Follows empty

-- The invariant, and room for an identifier.
abbrev pub Ready : Driver → Type 0
Ready d = Tracked d × (next_id d < 2 ^ 32)

-- An identifier that the handler has taken, and what it has made of it at the host.
abbrev pub New : HostState → ℕ → Driver → Type 0
New s id d = Follows (holds id s empty) d × (id < next_id d)

dropped : (s : HostState) (id : ℕ) (d : Driver) → New s id d → Tracked d
dropped s id d n = Follows-less _ empty d (λ i t. omega arith) n.0

-- A resource that the handler is about to insert.
abbrev Made : Resource → Driver → Type 0
Made r = Follows (holds r.id (view r) empty)

module _ (os : Os) (accepts : Accepting os) where
  pub create_3d_resource-New :
      (ctx id : ℕ) (p : ResourceCreateParam) (d : Driver)
      → New absent id d
      → New bare id (create_3d_resource os ctx id p 0 d)
  create_3d_resource-New ctx id p d n =
      let c = Calm-create_3d_resource os ctx id p 0 d in
      (Follows-create_3d_resource os accepts ctx id p empty d n.1 n.0, rw c.idrs n.1)

  create_blob_resource-New :
      (ctx id : ℕ) (p : BlobResourceCreateParam) (d : Driver)
      → New absent id d
      → New unmapped id (create_blob_resource os ctx id p 0 d)
  create_blob_resource-New ctx id p d n =
      let c = Calm-create_blob_resource os ctx id p 0 d in
      (Follows-create_blob_resource os accepts ctx id p empty d n.1 n.0, rw c.idrs n.1)

  pub allocate-New : (id size : ℕ) (d : Driver) → New bare id d → New bare id (allocate os size d).1
  unfolding allocate
  allocate-New id size d n = (allocate-Follows os size _ d n.0, n.1)

  create_backing-Ends :
      (ctx id size : ℕ) (stale : Resource)
      → Triple Tracked (New bare id) (create_backing os ctx stale id size) Made
  unfolding create_backing
  create_backing-Ends ctx id size stale = Ends-if (size == 1) _ _ (Ends-return _ (λ d n. n.0)) (
      Ends-bind (λ _. New bare id) _ _ (Ends-call_driver _ (λ d n. allocate-New id _ d n))
        (λ found.
          Ends-bind (λ _. New bare id) _ _
            (Ends-non_null found _ (λ d n. dropped bare id d n) (λ m d e n. n))
            (λ m.
              let r = backed stale id (backing_size size) m in
              Ends-bind (λ _. Made r) _ _
                (Ends-update_driver _
                  (λ d n. Follows-attach_resource_backing os accepts ctx r empty d n.1 n.0))
                (λ _. Ends-return _ (λ d h. h)))))

  pub create_resource-Ends :
      (request : Request) → Triple Tracked Ready (ctl_create_resource os request) (λ _. Tracked)
  unfolding ctl_create_resource
  create_resource-Ends request =
      Ends-bind (λ _. Ready) _ _ (Stays-retrieve_input Ready (λ d h. h.0) request _)
        (λ _.
          Ends-bind (λ _. Ready) _ _ (Stays-retrieve_output Ready (λ d h. h.0) request _)
            (λ status.
              Ends-bind (Current Ready (λ d h. h.0) os) _ _
                (Ends-current_context Ready (λ d h. h.0) os)
                (λ c.
                  Ends-bind (λ _. Ready) _ _ (Ends-non_null _ _ (λ d h. h.0.0) (λ stale d e h. h.0))
                    (λ stale.
                      Ends-bind (New absent) _ _
                        (Ends-call_driver _ (λ d h. next_resource_id-Follows d h.1 h.0))
                        (λ id.
                          Ends-bind (λ _. New bare id) _ _
                            (Ends-update_driver _ (λ d n. create_3d_resource-New c.id id _ d n))
                            (λ _. Ends-bind Made _ _ (create_backing-Ends c.id id _ stale) (λ r.
                              Ends-bind (λ _. Tracked) _ _
                                (Ends-update_driver _
                                  (λ d m. insert_resource-Follows c.id r empty d m))
                                (λ _.
                                  Ends-bind (λ _. Tracked) _ _ (Stays-write_output _ _)
                                    (λ _. Ends-return _ (λ d h. h))))))))))

  -- A blob that is in the list, and whose mapping has not been asked for.
  abbrev Inserted : ℕ → Resource → Driver → Type 0
  Inserted ctx r d' =
      (d : Driver) × Follows (holds r.id unmapped empty) d
      × (r.id < next_id d)
      × (d' ≡ insert_resource ctx r d)

  map_blob :
      (ctx id : ℕ) (stale : Resource) (d' : Driver)
      → Inserted ctx (blob stale id) d'
      → Tracked (map_blob_resource os ctx id 0 d')
  unfolding insert_resource
  map_blob ctx id stale d' (d, f, old, is) = rw is (
      Follows-map_blob_resource os accepts ctx (blob stale id) empty d _
        (Grows-insert_resource ctx (blob stale id) d) refl refl old f)

  pub create_blob_resource-Ends :
      (request : Request)
      → Triple Tracked Ready (ctl_create_blob_resource os request) (λ _. Tracked)
  unfolding ctl_create_blob_resource
  create_blob_resource-Ends request =
      Ends-bind (λ _. Ready) _ _ (Stays-retrieve_input Ready (λ d h. h.0) request _)
        (λ _.
          Ends-bind (λ _. Ready) _ _ (Stays-retrieve_output Ready (λ d h. h.0) request _)
            (λ _.
              Ends-bind (Current Ready (λ d h. h.0) os) _ _
                (Ends-current_context Ready (λ d h. h.0) os)
                (λ c.
                  Ends-bind (λ _. Ready) _ _ (Ends-non_null _ _ (λ d h. h.0.0) (λ stale d e h. h.0))
                    (λ stale.
                      Ends-bind (New absent) _ _
                        (Ends-call_driver _ (λ d h. next_resource_id-Follows d h.1 h.0))
                        (λ id.
                          Ends-bind (λ _. New unmapped id) _ _
                            (Ends-update_driver _ (λ d n. create_blob_resource-New c.id id _ d n))
                            (λ _.
                              Ends-bind (λ _. Inserted c.id (blob stale id)) _ _
                                (Ends-update_driver _ (λ d n. (d, n.0, n.1, refl)))
                                (λ _.
                                  Ends-bind (λ _. Tracked) _ _
                                    (Ends-update_driver _ (λ d h. map_blob c.id id stale d h))
                                    (λ _.
                                      Ends-bind (λ _. Tracked) _ _ (Stays-write_output _ _)
                                        (λ _. Ends-return _ (λ d h. h))))))))))
