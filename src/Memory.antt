-- ===== src/Memory.antt =====
-- kernelmode/vgpu/memory.c: the allocator of the memory that guest and host share. The functions
-- that take the spin lock run as one step.
pub mod Bitmap
pub mod Regions
use mvisor_win_vgpu_driver.Common.{
  ℕ, ◌+◌, ◌-◌, ◌*◌, ◌/◌, ◌%◌, ◌^◌, Bool, true, false, Option, none, some, ltb, leb, ◌==◌,
  if◌then◌else◌,
}
use Bitmap.{Bitmap as RegionBitmap, Rtl, bitmap_failed}

abbrev pub page_size : ℕ
page_size = 0x1000

-- A cast to `ULONG`, and arithmetic on `SIZE_T`.
abbrev pub ulong : ℕ → ℕ
ulong n = n % 2 ^ 32

abbrev pub add_size : ℕ → ℕ → ℕ
add_size a b = (a + b) % 2 ^ 64

abbrev pub sub_size : ℕ → ℕ → ℕ
sub_size a b = (a + 2 ^ 64 - b) % 2 ^ 64

-- `MEMORY_DESCRIPTOR`
pub record MemoryDescriptor : Type 0 where
  pub virtual_address : ℕ
  pub physical_address : ℕ

-- `VGPU_MEMORY`. The bitmap stands for `RegionBitmap` and the buffer behind it.
pub record VgpuMemory : Type 0 where
  pub initialized : Bool
  pub virtual_address : ℕ
  pub physical_address : ℕ
  pub available : ℕ
  pub bitmap : RegionBitmap
  pub last_free_index : ℕ

abbrev pub zeroed_memory : VgpuMemory
zeroed_memory = record {
  initialized = false;
  virtual_address = 0;
  physical_address = 0;
  available = 0;
  bitmap = record { size = 0; bit = λ _. false };
  last_free_index = 0;
}

-- The first argument says whether `ExAllocatePool2` gave the bitmap's buffer.
unfoldable pub initialize_vgpu_memory : Bool → ℕ → ℕ → ℕ → VgpuMemory → VgpuMemory
initialize_vgpu_memory got_buffer va pa size m =
    if got_buffer
    then record {
      initialized = true;
      virtual_address = va;
      physical_address = pa;
      available = size;
      bitmap = record { size = ulong (size / page_size); bit = λ _. false };
      last_free_index = 0;
    }
    else m

unfoldable pub uninitialize_vgpu_memory : VgpuMemory → VgpuMemory
uninitialize_vgpu_memory m = zeroed_memory

-- `ULONG` of a signed pointer difference over `PAGE_SIZE`; C's division rounds towards zero.
abbrev pub page_index : ℕ → ℕ → ℕ
page_index va base =
    if leb base va
    then ulong ((va - base) / page_size)
    else ulong (2 ^ 32 - ulong ((base - va) / page_size))

-- What the functions do, still under the lock, with the index that the search returned and the
-- bitmap that it left.
unfoldable pub record_allocation :
    ℕ → ℕ → RegionBitmap → VgpuMemory → Option MemoryDescriptor × VgpuMemory
record_allocation size index bitmap m =
    if index == bitmap_failed then (none, record m { bitmap = bitmap }) else (
      some (record {
        virtual_address = add_size m.virtual_address (index * page_size);
        physical_address = add_size m.physical_address (index * page_size);
      }),
      record m {
        bitmap = bitmap;
        last_free_index = ulong (index + ulong (size / page_size));
        available = sub_size m.available size;
      },
    )

unfoldable pub record_free : ℕ → ℕ → RegionBitmap → VgpuMemory → Bool × VgpuMemory
record_free size index bitmap m =
    if index == bitmap_failed then (false, record m { bitmap = bitmap }) else (
      true,
      record m { bitmap = bitmap; last_free_index = index; available = add_size m.available size },
    )

module _ (rtl : Rtl) where
  -- The descriptor that the caller gets is none where the function returns FALSE.
  unfoldable pub allocate_vgpu_memory : ℕ → VgpuMemory → Option MemoryDescriptor × VgpuMemory
  allocate_vgpu_memory size m =
      let (index, bitmap) =
        rtl.find_clear_bits_and_set m.bitmap (ulong (size / page_size)) m.last_free_index in
      if ltb m.available size then (none, m) else record_allocation size index bitmap m

  unfoldable pub free_vgpu_memory : ℕ → ℕ → VgpuMemory → VgpuMemory
  free_vgpu_memory va size m =
      let (index, bitmap) =
        rtl.find_set_bits_and_clear m.bitmap (ulong (size / page_size))
          (page_index va m.virtual_address) in
      (record_free size index bitmap m).1

  -- The Boolean is the function's result. `VitrualAddress - base + TargetSize` is unsigned.
  unfoldable pub realloc_vgpu_memory : ℕ → ℕ → ℕ → VgpuMemory → Bool × VgpuMemory
  realloc_vgpu_memory va origin target m =
      let change = sub_size origin target in
      let (index, bitmap) =
        rtl.find_set_bits_and_clear m.bitmap (ulong (change / page_size))
          (ulong (add_size (sub_size va m.virtual_address) target / page_size)) in
      if origin == target
      then (false, m)
      else if ltb origin target
      then (false, m)
      else record_free change index bitmap m
