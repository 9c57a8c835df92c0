-- ===== src/Host/Leak.antt =====
-- CtlCreateResource of kernelmode/vgpu/control.c when there is no guest memory for a resource: what
-- it leaves at the host.
use mathlib.Core.Path.{subst}
use native.Mathlib.Nat.{mod-eq_of_lt}
use mvisor_win_vgpu_driver.Common.{
  ℕ, ◌^◌, ◌<◌, ◌≡◌, refl, ◌∙◌, true, false, none, some, ◌==◌, arith, length,
}
use mvisor_win_vgpu_driver.Idr.{get_id_from_idr_without_cache}
use mvisor_win_vgpu_driver.Memory.{allocate_vgpu_memory}
use mvisor_win_vgpu_driver.Driver.{Driver, Context, Resource, status_insufficient_resources}
use mvisor_win_vgpu_driver.Os.{Os}
use mvisor_win_vgpu_driver.Exec.{leave, nt_success, ◌>>=◌}
use mvisor_win_vgpu_driver.Request.{
  Request, Io, retrieve_input, retrieve_output, set_bytes_return, update_driver, get_driver,
  call_driver,
}
use mvisor_win_vgpu_driver.Abi.{
  sizeof_resource_create, sizeof_resource_create_resp, resource_create_of,
}
use mvisor_win_vgpu_driver.Lookup.{get_virgl_context_from_list}
use mvisor_win_vgpu_driver.Command.Send.{create_3d_resource}
use mvisor_win_vgpu_driver.Control.Resources.{
  current_context, next_resource_id, allocate, backing_size, create_backing, ctl_create_resource,
}
use mvisor_win_vgpu_driver.Ioctl.Alone.{
  Alone, next_resource_id-Alone, send_command-Alone, allocate-Alone,
}
use mvisor_win_vgpu_driver.Ownership.Commands.{Calm-create_3d_resource}
use mvisor_win_vgpu_driver.Ownership.Steps.{next_id}
use mvisor_win_vgpu_driver.Host.{HostState, absent, bare, served, Table}
use mvisor_win_vgpu_driver.Host.Invariant.{empty, holds, Follows, Follows-state}
use mvisor_win_vgpu_driver.Host.Sending.{Accepting}
use mvisor_win_vgpu_driver.Host.Taking.{next_resource_id-Follows}
use mvisor_win_vgpu_driver.Host.Creation.{Tracked, create_3d_resource-New, allocate-New}

-- A request to create a resource whose buffers are as the handler expects them.
pub record IsWellFormed (request : Request) : Type 0 where
  pub input_success : nt_success request.input_status ≡ true
  pub input_size : (length request.input == sizeof_resource_create) ≡ true
  pub output_success : nt_success request.output_status ≡ true
  pub output_size : (request.output_length == sizeof_resource_create_resp) ≡ true

-- The commands so far are in order, and the host has the resource in the given state.
pub record AtHost (id : ℕ) (s : HostState) (d : Driver) : Type 0 where
  pub table : Table
  pub in_order : served d.effects ≡ some table
  pub state : table id ≡ s

Follows-AtHost :
    (id : ℕ) (s : HostState) (d : Driver) → Follows (holds id s empty) d → AtHost id s d
Follows-AtHost id s d f = record {
  table = f.table;
  in_order = f.in_order;
  state = Follows-state id s empty d f;
}

next_resource_id_lem : (d : Driver) → next_id d < 2 ^ 32 → (next_resource_id d).0 ≡ next_id d
unfolding next_resource_id get_id_from_idr_without_cache
next_resource_id_lem d room = mod-eq_of_lt {n = next_id d} {m = 2 ^ 32} room

module _ (os : Os) (request : Request) (c : Context) where
  -- The driver when the handler asks for memory, and when it gives up.
  abbrev asking : Driver → Driver
  asking d =
      let (id, taken) = next_resource_id d in
      create_3d_resource os c.id id (resource_create_of request.input).param 0 taken

  abbrev size : ℕ
  size = backing_size (resource_create_of request.input).size

  abbrev given_up : Driver → Driver
  given_up d = (allocate os size (asking d)).1

  asking-memory : (d : Driver) → (asking d).memory ≡ d.memory
  unfolding next_resource_id
  asking-memory d = (Calm-create_3d_resource os c.id _ _ 0 _).memory

  no_memory :
      (d : Driver)
      → (allocate_vgpu_memory os.rtl size d.memory).0 ≡ none
      → (allocate os size (asking d)).0 ≡ none
  unfolding allocate
  no_memory d full = rw (asking-memory d) full

  given_up-Alone : (d : Driver) → Alone d (given_up d)
  unfolding create_3d_resource
  given_up-Alone d =
      allocate-Alone os size (asking d)
      ∙ (send_command-Alone os _ _ _ _ _ ∙ next_resource_id-Alone d)

  no_backing :
      (stale : Resource) (id : ℕ) (io : Io)
      → ((resource_create_of request.input).size == 1) ≡ false
      → (allocate os size io.driver).0 ≡ none
      → create_backing os c.id stale id (resource_create_of request.input).size io ≡ (
        leave status_insufficient_resources,
        record io { driver = (allocate os size io.driver).1 },
      )
  unfolding create_backing call_driver ◌>>=◌
  no_backing stale id io buffered full = rw (buffered, full) refl

  gives_up :
      (stale : Resource) (io : Io)
      → IsWellFormed request
      → get_virgl_context_from_list os.process_id io.driver ≡ some c
      → os.stale_resource ≡ some stale
      → ((resource_create_of request.input).size == 1) ≡ false
      → (allocate_vgpu_memory os.rtl size io.driver.memory).0 ≡ none
      → ctl_create_resource os request io ≡ (
        leave status_insufficient_resources,
        record io { driver = given_up io.driver; bytes_return = request.output_length },
      )
  unfolding ctl_create_resource ◌>>=◌ retrieve_input retrieve_output set_bytes_return
      current_context get_driver call_driver update_driver
  gives_up stale io w here record_there buffered full =
      let (id, taken) = next_resource_id io.driver in
      let asked = record io { driver = asking io.driver; bytes_return = request.output_length } in
      simp (
        w.input_success,
        w.input_size,
        w.output_success,
        w.output_size,
        here,
        record_there,
        no_backing stale id asked buffered (no_memory io.driver full),
      )

  module _ (accepts : Accepting os) where
    given_up_bare :
        (d : Driver) → Tracked d → next_id d < 2 ^ 32 → AtHost (next_id d) bare (given_up d)
    given_up_bare d f room =
        let (id, taken) = next_resource_id d in
        let there = allocate-New os accepts id size (asking d) (
          create_3d_resource-New os accepts c.id id (resource_create_of request.input).param taken
            (next_resource_id-Follows d room f)) in
        subst (λ i. AtHost i bare (given_up d)) (next_resource_id_lem d room)
          (Follows-AtHost id bare (given_up d) there.0)

    -- While the queues accept, a well-formed request to create a resource with a buffer that there
    -- is no guest memory for, of a process with a context, fails with
    -- STATUS_INSUFFICIENT_RESOURCES and leaves all contexts as they were; but the host, which had no
    -- resource with the identifier that came next, has one with no backing now. Identifiers are to
    -- be left, and the host and the driver are to agree before the request.
    pub create_resource_leaks :
        (stale : Resource) (io : Io)
        → IsWellFormed request
        → get_virgl_context_from_list os.process_id io.driver ≡ some c
        → os.stale_resource ≡ some stale
        → ((resource_create_of request.input).size == 1) ≡ false
        → (allocate_vgpu_memory os.rtl size io.driver.memory).0 ≡ none
        → Tracked io.driver
        → next_id io.driver < 2 ^ 32
        → let (result, after) = ctl_create_resource os request io in
          (result ≡ leave status_insufficient_resources)
          × (after.driver.contexts ≡ io.driver.contexts)
          × AtHost (next_id io.driver) absent io.driver
          × AtHost (next_id io.driver) bare after.driver
    create_resource_leaks stale io w here record_there buffered full f room =
        let before : AtHost (next_id io.driver) absent io.driver = record {
          table = f.table;
          in_order = f.in_order;
          state = f.unknown (next_id io.driver) (omega arith);
        } in
        rw (gives_up stale io w here record_there buffered full)
          (refl, given_up-Alone io.driver, before, given_up_bare io.driver f room)
