-- ===== src/Control/Share.antt =====
-- kernelmode/vgpu/control.c: memory shared with user mode, and the deletion of a resource.
use mvisor_win_vgpu_driver.Common.{
  ℕ, Bool, false, ◌||◌, not, Option, none, some, ◌==◌, if◌then◌else◌,
}
use mvisor_win_vgpu_driver.Memory.{ulong}
use mvisor_win_vgpu_driver.Driver.{Driver, ShareDescriptor, Resource, Effect, null}
use mvisor_win_vgpu_driver.Os.{Os}
use mvisor_win_vgpu_driver.Command.Push.{log_effect}
use mvisor_win_vgpu_driver.Command.Send.{
  unmap_blob_resource, detach_resource_backing, unref_resource,
}
use mvisor_win_vgpu_driver.Interrupt.{free_memory}

abbrev pub is_null : ℕ → Bool
is_null a = a == null

-- What `CreateUserShareMemory` does with the result of the mapping; an exception is none.
abbrev pub share_mapped : ShareDescriptor → Option ℕ → Bool × ShareDescriptor
share_mapped s none = (false, s)
share_mapped s (some user) = (not (is_null user), record s { user_address = user })

unfoldable pub create_user_share_memory : Os → ShareDescriptor → Bool × ShareDescriptor
create_user_share_memory os s =
    let mdl = os.allocate_mdl s.kernel_address (ulong s.size) in
    if s.kernel_address == null || s.size == 0
    then (false, s)
    else if mdl == null
    then (false, record s { mdl = mdl })
    else share_mapped (record s { mdl = mdl }) (os.map_locked_pages mdl)

unfoldable pub delete_user_share_memory : ShareDescriptor → Driver → Driver
delete_user_share_memory s d =
    if s.user_address == null || s.mdl == null
    then d
    else log_effect (Effect.unmap_locked_pages s.user_address s.mdl) d

-- The backing of a resource goes the way it came: a blob is unmapped, guest memory is freed.
unfoldable pub release_backing : Os → ℕ → Resource → Driver → Driver
release_backing os ctx r d =
    if r.for_blob
    then log_effect (Effect.unmap_io_space r.buffer.memory.virtual_address r.buffer.size)
        (unmap_blob_resource os ctx r.id 0 d)
    else free_memory os r.buffer.memory.virtual_address r.buffer.size
        (detach_resource_backing os r d)

unfoldable pub delete_resource : Os → ℕ → Resource → Driver → Driver
delete_resource os ctx r d =
    let unshared =
      if r.buffer.share.mdl == null then d else delete_user_share_memory r.buffer.share d in
    unref_resource os ctx r.id (if r.for_buffer then release_backing os ctx r unshared else d)
