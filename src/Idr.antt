-- ===== src/Idr.antt =====
-- kernelmode/vgpu/idr.c and idr.h: the two identifier pools.
pub mod Fresh
use mvisor_win_vgpu_driver.Common.{ℕ, ◌+◌, ◌*◌, ◌%◌, ◌^◌, Bool, true, false, List, [], ◌∷◌}

-- `VIRGL_RESOURCE_ID_TYPE` and `FENCE_ID_TYPE`, the only indices that the driver uses.
pub data IdType : Type 0 where
  virgl_resource_id fence_id : IdType

-- `IDRANDOM`: the counter is a 64-bit integer. The list holds the `FREEID` entries, head first; the
-- spin lock and the lookaside list that the entries come from are left out.
pub record Idr : Type 0 where
  pub id : ℕ
  pub free_ids : List ℕ
  pub initialized : Bool

-- `Idrs`, the array of two pools.
pub record Idrs : Type 0 where
  pub virgl_resource : Idr
  pub fence : Idr

abbrev pub idr_of : Idrs → IdType → Idr
idr_of s virgl_resource_id = s.virgl_resource
idr_of s fence_id = s.fence

abbrev pub set_idr : Idrs → IdType → Idr → Idrs
set_idr s virgl_resource_id r = record s { virgl_resource = r }
set_idr s fence_id r = record s { fence = r }

-- `RtlCopyMemory(Id, &value, Size)` on a little-endian machine: the low bytes.
abbrev pub low_bytes : ℕ → ℕ → ℕ
low_bytes size value = value % 2 ^ (8 * size)

-- 0 is reserved, so counting starts at 1.
abbrev pub fresh_idr : Idr
fresh_idr = record { id = 1; free_ids = []; initialized = true }

unfoldable pub initialize_idr : Idrs
initialize_idr = record { virgl_resource = fresh_idr; fence = fresh_idr }

abbrev drained : Idr → Idr
drained r = record r { free_ids = []; initialized = false }

unfoldable pub uninitialize_idr : Idrs → Idrs
uninitialize_idr s = record { virgl_resource = drained s.virgl_resource; fence = drained s.fence }

-- The pool's counter after `Id.QuadPart++`, which wraps at 64 bits.
abbrev pub bump : Idr → Idr
bump r = record r { id = (r.id + 1) % 2 ^ 64 }

unfoldable pub get_id_from_idr_without_cache : ℕ → Idr → ℕ × Idr
get_id_from_idr_without_cache size r = (low_bytes size r.id, bump r)

abbrev get_id : ℕ → Idr → List ℕ → ℕ × Idr
get_id size r [] = (low_bytes size r.id, bump r)
get_id size r (free ∷ rest) = (low_bytes size free, record r { free_ids = rest })

unfoldable pub get_id_from_idr : ℕ → Idr → ℕ × Idr
get_id_from_idr size r = get_id size r r.free_ids

unfoldable pub put_id_to_idr : ℕ → ℕ → Idr → Idr
put_id_to_idr size id r = record r { free_ids = low_bytes size id ∷ r.free_ids }
