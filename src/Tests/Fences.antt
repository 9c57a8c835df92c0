-- ===== src/Tests/Fences.antt =====
-- `UpdateResourceState` of kernelmode/vgpu/control.h at concrete inputs.
use mvisor_win_vgpu_driver.Common.{
  refl, arith, some, ◌∷◌, true, false, ℕ, ◌≡◌, [], contains, if◌then◌else◌,
}
use mathlib.Core.Option
use mvisor_win_vgpu_driver.Driver.{Context, Resource, VgpuMemoryBuffer}
use mvisor_win_vgpu_driver.Lookup.{get_resource_from_list, signal, update_resources}
use mvisor_win_vgpu_driver.Lookup.Fences.{get_resource-update, get_resource_complete}

abbrev pub buffer : VgpuMemoryBuffer
buffer = record {
  size = 0x1000;
  share = record { mdl = 0; size = 0; user_address = 0; kernel_address = 0 };
  memory = record { virtual_address = 0x10000; physical_address = 0x8000_0000 };
}

abbrev pub resource : ℕ → Resource
resource id = record {
  id = id;
  idle = true;
  for_buffer = true;
  for_blob = false;
  fence_id = 4;
  buffer = buffer;
}

abbrev pub context : Context
context = record { id = 100; resources = resource 7 ∷ resource 3 ∷ [] }

get_resource-update_example :
    get_resource_from_list 3 (update_resources (3 ∷ 9 ∷ 3 ∷ []) true 5 context) ≡ (
      if contains 3 (3 ∷ 9 ∷ 3 ∷ [])
      then Option.map (signal true 5) (get_resource_from_list 3 context)
      else get_resource_from_list 3 context)
get_resource-update_example = get_resource-update (3 ∷ 9 ∷ 3 ∷ []) true 5 3 context

-- Fence 5 is overtaken by fence 6, so its completion leaves the resource busy.
get_resource_complete_example :
    get_resource_from_list 3
      (update_resources (3 ∷ []) false 5 (update_resources (7 ∷ 3 ∷ []) true 6 context))
    ≡ some (record (resource 3) { fence_id = 6; idle = false })
unfolding get_resource_from_list
get_resource_complete_example =
    get_resource_complete (7 ∷ 3 ∷ []) (3 ∷ []) 6 5 3 context (resource 3) refl refl (omega arith)
      (omega arith) (omega arith)
