-- ===== src/Control/Resources.antt =====
-- kernelmode/vgpu/control.c: creating and closing resources.
use mvisor_win_vgpu_driver.Common.{
  ℕ, ◌+◌, ◌-◌, ◌*◌, ◌/◌, ◌%◌, ◌^◌, true, false, Option, none, some, ◌∷◌, ◌==◌, if◌then◌else◌,
  remove_first,
}
use mvisor_win_vgpu_driver.Idr.{get_id_from_idr_without_cache}
use mvisor_win_vgpu_driver.Memory.{page_size, MemoryDescriptor, allocate_vgpu_memory}
use mvisor_win_vgpu_driver.Driver.{
  Driver, Context, Resource, null, status_success, status_unsuccessful,
  status_insufficient_resources,
}
use mvisor_win_vgpu_driver.Os.{Os}
use mvisor_win_vgpu_driver.Command.Send.{
  create_3d_resource, create_blob_resource, map_blob_resource, attach_resource_backing,
}
use mvisor_win_vgpu_driver.Exec.{Exec, ◌>>=◌, ◌>>◌, return, leave_with}
use mvisor_win_vgpu_driver.Request.{
  Request, Io, Output, retrieve_input, retrieve_output, write_output, update_driver, get_driver,
  call_driver,
}
use mvisor_win_vgpu_driver.Abi.{
  sizeof_resource_create, sizeof_resource_create_resp, resource_create_of,
  sizeof_resource_create_blob, resource_create_blob_of, sizeof_gem_close, gem_close_handle,
}
use mvisor_win_vgpu_driver.Lookup.{
  get_virgl_context_from_list, get_resource_from_list, modify_context, has_resource_id,
}
use mvisor_win_vgpu_driver.Control.Share.{delete_resource}

-- `if (!p) return status;` for a pointer that is used afterwards.
abbrev pub non_null {ℓ} : {S A : Type ℓ} → Option A → ℕ → Exec S A
non_null none status = leave_with status
non_null (some a) status = return a

-- `ROUND_UP(x, PAGE_SIZE)` in an unsigned type of `w` bits: the sum wraps, and the mask clears the
-- low twelve bits.
abbrev pub round_up : ℕ → ℕ → ℕ
round_up w x = (x + (page_size - 1)) % 2 ^ w / page_size * page_size

-- The context of the calling process.
unfoldable pub current_context : Os → Exec Io Context
current_context os = do
  d ← get_driver
  non_null (get_virgl_context_from_list os.process_id d) status_unsuccessful

unfoldable pub next_resource_id : Driver → ℕ × Driver
next_resource_id d =
    let (id, r) = get_id_from_idr_without_cache 4 d.idrs.virgl_resource in
    (id, record d { idrs = record (d.idrs) { virgl_resource = r } })

unfoldable pub insert_resource : ℕ → Resource → Driver → Driver
insert_resource ctx r = modify_context ctx (λ c. record c { resources = r ∷ c.resources })

-- The size of the backing: a page for a size of 0, a rounded 32-bit size else.
unfoldable pub backing_size : ℕ → ℕ
backing_size size = if size == 0 then page_size else round_up 32 size

unfoldable pub allocate : Os → ℕ → Driver → Option MemoryDescriptor × Driver
allocate os size d =
    let (memory, m) = allocate_vgpu_memory os.rtl size d.memory in (memory, record d { memory = m })

-- A resource without a buffer is only counted by the host; one with a buffer gets guest memory.
abbrev pub plain : Resource → ℕ → Resource
plain stale id = record stale {
  id = id;
  idle = true;
  for_buffer = false;
  for_blob = false;
  fence_id = 0;
}

abbrev pub backed : Resource → ℕ → ℕ → MemoryDescriptor → Resource
backed stale id size memory = record (plain stale id) {
  for_buffer = true;
  buffer = record (stale.buffer) {
    size = size;
    memory = memory;
    share = record (stale.buffer.share) { mdl = null };
  };
}

unfoldable pub create_backing : Os → ℕ → Resource → ℕ → ℕ → Exec Io Resource
create_backing os ctx stale id size = if size == 1 then return (plain stale id) else (do
  found ← call_driver (allocate os (backing_size size))
  memory ← non_null found status_insufficient_resources
  let r = backed stale id (backing_size size) memory
  update_driver (attach_resource_backing os ctx r)
  return r)

unfoldable pub ctl_create_resource : Os → Request → Exec Io ℕ
ctl_create_resource os request = do
  _ ← retrieve_input request sizeof_resource_create
  status ← retrieve_output request sizeof_resource_create_resp
  c ← current_context os
  stale ← non_null os.stale_resource status_insufficient_resources
  let create = resource_create_of request.input
  id ← call_driver next_resource_id
  update_driver (create_3d_resource os c.id id create.param 0)
  r ← create_backing os c.id stale id create.size
  update_driver (insert_resource c.id r)
  write_output (Output.handle id)
  return status

-- A blob starts busy, and nothing is known of its memory until the device has mapped it.
abbrev pub blob : Resource → ℕ → Resource
blob stale id = record stale {
  id = id;
  idle = false;
  for_buffer = true;
  for_blob = true;
  fence_id = 0;
  buffer = record (stale.buffer) { share = record (stale.buffer.share) { mdl = null } };
}

unfoldable pub ctl_create_blob_resource : Os → Request → Exec Io ℕ
ctl_create_blob_resource os request = do
  _ ← retrieve_input request sizeof_resource_create_blob
  _ ← retrieve_output request sizeof_resource_create_resp
  c ← current_context os
  stale ← non_null os.stale_resource status_insufficient_resources
  id ← call_driver next_resource_id
  let create = resource_create_blob_of request.input
  update_driver
      (create_blob_resource os c.id id (record create { size = round_up 64 create.size }) 0)
  update_driver (insert_resource c.id (blob stale id))
  update_driver (map_blob_resource os c.id id 0)
  write_output (Output.handle id)
  return status_success

unfoldable pub remove_resource : ℕ → ℕ → Driver → Driver
remove_resource ctx id =
    modify_context ctx (λ c. record c { resources = remove_first (has_resource_id id) c.resources })

unfoldable pub ctl_close_resource : Os → Request → Exec Io ℕ
ctl_close_resource os request = do
  status ← retrieve_input request sizeof_gem_close
  c ← current_context os
  let handle = gem_close_handle request.input
  r ← non_null (get_resource_from_list handle c) status_unsuccessful
  update_driver (remove_resource c.id handle)
  update_driver (delete_resource os c.id r)
  return status
