-- ===== src/Memory/Regions/Refine.antt =====
-- kernelmode/vgpu/memory.c refines the list of regions given out.
use mvisor_win_vgpu_driver.Common.{
  ℕ, ◌+◌, ◌*◌, ◌/◌, ◌^◌, ◌≤◌, ◌<◌, ◌≡◌, ◌≢◌, refl, sym, ◌∙◌, Bool, true, false, List, ◌∷◌, arith,
  get_elem?, remove_at, Option, none, some, sum_of-remove_at, All-remove_at, ◌==◌, ltb, inl, inr,
  Bool-cases, ==→eq, ==→ne, ltb→le, ==_of_ne,
}
use mvisor_win_vgpu_driver.Memory.{
  VgpuMemory, MemoryDescriptor, page_size, ulong, add_size, page_index, allocate_vgpu_memory,
  free_vgpu_memory, record_allocation, record_free,
}
use mvisor_win_vgpu_driver.Memory.Bitmap.{Bitmap, Rtl, RtlLaws, bitmap_failed, HasRun, write_run}
use mvisor_win_vgpu_driver.Memory.Regions.{
  Region, covers, owners, bit_count, Holds, bit_of_region, region_inside,
}

-- What an allocation of `n` pages may do.
abbrev pub Allocates : ℕ → List Region → VgpuMemory → Option MemoryDescriptor → VgpuMemory → Type 0
Allocates n regions m none m' = m' ≡ m
Allocates n regions m (some d) m' =
    (index : ℕ) × (d.virtual_address ≡ m.virtual_address + index * page_size)
    × (d.physical_address ≡ add_size m.physical_address (index * page_size))
    × (m'.virtual_address ≡ m.virtual_address)
    × (m'.bitmap.size ≡ m.bitmap.size)
    × ((i : ℕ) → index ≤ i → i < index + n → owners i regions ≡ 0)
    × Holds (record { index = index; pages = n } ∷ regions) m'

record_allocation-Allocates :
    (n index : ℕ) (b : Bitmap) (regions : List Region) (m : VgpuMemory)
    → Holds regions m
    → n * page_size ≤ m.available
    → HasRun m.bitmap false index n
    → index ≢ bitmap_failed
    → b ≡ write_run m.bitmap index n true
    → let (d, m') = record_allocation (n * page_size) index b m in Allocates n regions m d m'
unfolding record_allocation
record_allocation-Allocates n index b regions m v fits run found e =
    rw (==_of_ne index bitmap_failed found) (
      rw e (
        index,
        ground (arith, v.addressed, run.0),
        refl,
        refl,
        refl,
        λ i low high. ground (arith, v.backed i, run.1 i),
        record {
          backed = λ i. ground (arith, v.backed i, run.1 i);
          inside = (run.0, v.inside);
          accounted = ground (arith, v.accounted, v.addressed);
          numbered = v.numbered;
          addressed = v.addressed;
        },
      ))

bit_count-injective : (a b : Bool) → bit_count a ≡ bit_count b → a ≡ b
bit_count-injective a b h = ground arith

pub record_allocation-failed :
    (size : ℕ) (b : Bitmap) (m : VgpuMemory)
    → b ≡ m.bitmap
    → record_allocation size bitmap_failed b m ≡ (none, m)
unfolding record_allocation
record_allocation-failed size b m e = rw e

record_allocation-some :
    (size index : ℕ) (b : Bitmap) (m : VgpuMemory)
    → index ≢ bitmap_failed
    → (d : MemoryDescriptor) × ((record_allocation size index b m).0 ≡ some d)
unfolding record_allocation
record_allocation-some size index b m h = rw (==_of_ne index bitmap_failed h) (_, refl)

pub record_free-found :
    (size index : ℕ) (b : Bitmap) (m : VgpuMemory)
    → index ≢ bitmap_failed
    → record_free size index b m ≡ (
      true,
      record m { bitmap = b; last_free_index = index; available = add_size m.available size },
    )
unfolding record_free
record_free-found size index b m h = rw (==_of_ne index bitmap_failed h)

module _ (rtl : Rtl) (laws : RtlLaws rtl) where
  -- An allocation of whole pages either fails and changes nothing, or gives the address of a region
  -- no page of which was given out, and adds just that region to what is given out.
  pub allocate-Allocates :
      (n : ℕ) (regions : List Region) (m : VgpuMemory)
      → Holds regions m
      → let (d, m') = allocate_vgpu_memory rtl (n * page_size) m in Allocates n regions m d m'
  unfolding allocate_vgpu_memory
  allocate-Allocates n regions m v = elim (Bool-cases (ltb m.available (n * page_size))) [
    | inl short ↦ rw short refl
    | inr enough ↦
        let pages : ulong (n * page_size / page_size) ≡ n =
          omega (arith, ltb→le _ _ enough, v.accounted, v.numbered) in
        let (i, b) = rtl.find_clear_bits_and_set m.bitmap n m.last_free_index in
        rw (enough, pages)
          (elim (Bool-cases (i == bitmap_failed)) [
            | inl none_found ↦
                let e = ==→eq _ _ none_found in
                rw
                  (
                    e,
                    record_allocation-failed _ _ m
                        (laws.clear_to_set.failed m.bitmap n m.last_free_index e),
                  )
                  refl
            | inr one_found ↦
                let ne = ==→ne _ _ one_found in
                let f = laws.clear_to_set.found m.bitmap n m.last_free_index ne in
                record_allocation-Allocates n i b regions m v (ltb→le _ _ enough) f.0 ne f.1
          ])
  ]

  -- An allocation of whole pages succeeds if enough is available and some run of free pages is long
  -- enough, wherever the search starts.
  pub allocate_succeeds :
      (n index : ℕ) (m : VgpuMemory)
      → m.bitmap.size < bitmap_failed
      → n < 2 ^ 32
      → n * page_size ≤ m.available
      → HasRun m.bitmap false index n
      → (d : MemoryDescriptor) × ((allocate_vgpu_memory rtl (n * page_size) m).0 ≡ some d)
  unfolding allocate_vgpu_memory
  allocate_succeeds n index m numbered small fits run =
      let enough : ltb m.available (n * page_size) ≡ false = ground arith in
      let pages : ulong (n * page_size / page_size) ≡ n = omega arith in
      rw (enough, pages)
        (record_allocation-some (n * page_size) _ _ m
          (laws.clear_to_set.complete m.bitmap n m.last_free_index index numbered run))

  pub free-eq :
      (index n : ℕ) (m : VgpuMemory)
      → HasRun m.bitmap true index n
      → m.bitmap.size < bitmap_failed
      → free_vgpu_memory rtl (m.virtual_address + index * page_size) (n * page_size) m ≡ record m {
        bitmap = write_run m.bitmap index n false;
        last_free_index = index;
        available = add_size m.available (n * page_size);
      }
  unfolding free_vgpu_memory
  free-eq index n m run small =
      let pages : ulong (n * page_size / page_size) ≡ n = omega (arith, run.0) in
      let hint : page_index (m.virtual_address + index * page_size) m.virtual_address ≡ index =
        ground (arith, run.0) in
      let at = laws.set_to_clear.from_hint m.bitmap n index small run in
      let ne : (rtl.find_set_bits_and_clear m.bitmap n index).0 ≢ bitmap_failed =
        omega (arith, at, run.0) in
      let f = laws.set_to_clear.found m.bitmap n index ne in
      rw (pages, hint, record_free-found _ _ _ m ne, f.1, at, free_vgpu_memory) refl

  -- Freeing a region that was given out finds it, clears just its bits, makes its size available
  -- again, and leaves the other regions given out.
  pub free-Holds :
      (k : ℕ) (r : Region) (regions : List Region) (m : VgpuMemory)
      → Holds regions m
      → get_elem? regions k ≡ some r
      → let m' =
          free_vgpu_memory rtl (m.virtual_address + r.index * page_size) (r.pages * page_size) m in
        Holds (remove_at regions k) m'
        × (m'.bitmap ≡ write_run m.bitmap r.index r.pages false)
        × (m'.available ≡ m.available + r.pages * page_size)
  free-Holds k r regions m v e =
      let inside = region_inside m.bitmap.size regions k r v.inside e in
      let run : HasRun m.bitmap true r.index r.pages = (inside, bit_of_region regions k r m v e) in
      let total = sum_of-remove_at (λ r. r.pages) regions k r e in
      let sum : add_size m.available (r.pages * page_size) ≡ m.available + r.pages * page_size =
        omega (arith, v.accounted, v.addressed, total) in
      rw (free-eq r.index r.pages m run v.numbered, sum)
        (
          record {
            backed = λ i. ground (arith, v.backed i, sum_of-remove_at (covers i) regions k r e);
            inside = All-remove_at _ regions k v.inside;
            accounted = omega (arith, v.accounted, total);
            numbered = v.numbered;
            addressed = v.addressed;
          },
          refl,
          refl,
        )

  restore_allocation :
      (n : ℕ) (regions : List Region) (m m' : VgpuMemory) (d : MemoryDescriptor)
      → Holds regions m
      → Allocates n regions m (some d) m'
      → let m'' = free_vgpu_memory rtl d.virtual_address (n * page_size) m' in
        ((i : ℕ) → m''.bitmap.bit i ≡ m.bitmap.bit i) × (m''.available ≡ m.available)
  restore_allocation n regions m m' d v (index, at, _, same, size, apart, w) =
      let r : Region = record { index = index; pages = n } in
      let f = free-Holds 0 r (r ∷ regions) m' w refl in
      rw (at, ← same)
        (
          λ i. bit_count-injective _ _ (sym (f.0.backed i) ∙ v.backed i),
          omega (arith, f.2, w.accounted, v.accounted, size),
        )

  -- Freeing what an allocation gave restores the bitmap and the size counted as available.
  pub free-allocate :
      (n : ℕ) (regions : List Region) (m : VgpuMemory) (d : MemoryDescriptor)
      → Holds regions m
      → (allocate_vgpu_memory rtl (n * page_size) m).0 ≡ some d
      → let m' = (allocate_vgpu_memory rtl (n * page_size) m).1 in
        let m'' = free_vgpu_memory rtl d.virtual_address (n * page_size) m' in
        ((i : ℕ) → m''.bitmap.bit i ≡ m.bitmap.bit i) × (m''.available ≡ m.available)
  free-allocate n regions m d v e =
      let m' = (allocate_vgpu_memory rtl (n * page_size) m).1 in
      let a = allocate-Allocates n regions m v in restore_allocation n regions m m' d v (rw e at a)
