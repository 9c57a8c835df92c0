-- ===== src/Tests/Allocation.antt =====
-- The allocator of kernelmode/vgpu/memory.c at concrete inputs, over a first-fit search.
use mvisor_win_vgpu_driver.Common.{
  ℕ, ◌+◌, ◌*◌, ◌≡◌, refl, true, false, ◌||◌, some, List, [], ◌∷◌, arith, set, ◌==◌,
}
use mvisor_win_vgpu_driver.Memory.{
  VgpuMemory, MemoryDescriptor, page_size, allocate_vgpu_memory, free_vgpu_memory,
  realloc_vgpu_memory, record_allocation,
}
use mvisor_win_vgpu_driver.Memory.Bitmap.{HasRun, write_run}
use mvisor_win_vgpu_driver.Memory.Regions.{Region, Holds}
use mvisor_win_vgpu_driver.Memory.Regions.Refine.{
  Allocates, allocate-Allocates, allocate_succeeds, free-Holds, free-allocate,
}
use mvisor_win_vgpu_driver.Memory.Regions.Shrink.{realloc-Holds}
use mvisor_win_vgpu_driver.Tests.FirstFit.{first_fit, first_fit-RtlLaws, search_run}

-- Sixteen pages, of which pages 2 to 4 and page 8 were given out.
abbrev pub memory : VgpuMemory
memory = record {
  initialized = true;
  virtual_address = 0x10000;
  physical_address = 0x8000_0000;
  available = 12 * page_size;
  bitmap = record { size = 16; bit = λ i. i == 2 || i == 3 || i == 4 || i == 8 };
  last_free_index = 9;
}

abbrev regions : List Region
regions = record { index = 2; pages = 3 } ∷ record { index = 8; pages = 1 } ∷ []

memory-Holds : Holds regions memory
memory-Holds = record {
  backed = λ i. ground arith;
  inside = omega arith;
  accounted = refl;
  numbered = omega arith;
  addressed = omega arith;
}

abbrev found_at_9 : MemoryDescriptor
found_at_9 = record { virtual_address = 0x19000; physical_address = 0x8000_9000 }

allocates_from_hint : (allocate_vgpu_memory first_fit (2 * page_size) memory).0 ≡ some found_at_9
unfolding allocate_vgpu_memory record_allocation search_run
allocates_from_hint = refl

allocate-Allocates_example :
    let (d, m) = allocate_vgpu_memory first_fit (2 * page_size) memory in
    Allocates 2 regions memory d m
allocate-Allocates_example =
    allocate-Allocates first_fit first_fit-RtlLaws 2 regions memory memory-Holds

nine_to_ten : HasRun memory.bitmap false 9 2
nine_to_ten = (omega arith, λ i low high. ground arith)

allocate_succeeds_example :
    (d : MemoryDescriptor) × ((allocate_vgpu_memory first_fit (2 * page_size) memory).0 ≡ some d)
allocate_succeeds_example =
    allocate_succeeds first_fit first_fit-RtlLaws 2 9 memory (omega arith) (omega arith)
      (omega arith) nine_to_ten

free-Holds_example :
    let m = free_vgpu_memory first_fit (0x10000 + 2 * page_size) (3 * page_size) memory in
    Holds (record { index = 8; pages = 1 } ∷ []) m
    × (m.bitmap ≡ write_run memory.bitmap 2 3 false)
    × (m.available ≡ 12 * page_size + 3 * page_size)
free-Holds_example =
    free-Holds first_fit first_fit-RtlLaws 0 (record { index = 2; pages = 3 }) regions memory
      memory-Holds refl

free-allocate_example :
    let m = (allocate_vgpu_memory first_fit (2 * page_size) memory).1 in
    let n = free_vgpu_memory first_fit 0x19000 (2 * page_size) m in
    ((i : ℕ) → n.bitmap.bit i ≡ memory.bitmap.bit i) × (n.available ≡ memory.available)
free-allocate_example =
    free-allocate first_fit first_fit-RtlLaws 2 regions memory found_at_9 memory-Holds
      allocates_from_hint

realloc-Holds_example :
    let (done, m) =
      realloc_vgpu_memory first_fit
        (0x10000 + 2 * page_size)
        (3 * page_size)
        (1 * page_size)
        memory in
    (done ≡ true) × Holds (set regions 0 (record { index = 2; pages = 1 })) m
realloc-Holds_example =
    realloc-Holds first_fit first_fit-RtlLaws 0 1 (record { index = 2; pages = 3 }) regions memory
      memory-Holds refl (omega arith)
