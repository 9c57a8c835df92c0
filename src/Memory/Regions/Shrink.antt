-- ===== src/Memory/Regions/Shrink.antt =====
-- `ReallocVgpuMemory` of kernelmode/vgpu/memory.c gives back the tail of a region.
use mvisor_win_vgpu_driver.Common.{
  ℕ, ◌+◌, ◌-◌, ◌*◌, ◌/◌, ◌<◌, ◌≡◌, ◌≢◌, refl, true, false, List, arith, set, get_elem?, some,
  sum_of-set, All-set, ◌==◌, ltb,
}
use mvisor_win_vgpu_driver.Memory.{
  VgpuMemory, page_size, ulong, add_size, sub_size, realloc_vgpu_memory,
}
use mvisor_win_vgpu_driver.Memory.Bitmap.{Rtl, RtlLaws, bitmap_failed, HasRun, write_run}
use mvisor_win_vgpu_driver.Memory.Regions.Refine.{record_free-found}
use mvisor_win_vgpu_driver.Memory.Regions.{Region, covers, Holds, bit_of_region, region_inside}

module _ (rtl : Rtl) (laws : RtlLaws rtl) where
  realloc-eq :
      (index p q : ℕ) (m : VgpuMemory)
      → q < p
      → HasRun m.bitmap true (index + q) (p - q)
      → m.bitmap.size < bitmap_failed
      → realloc_vgpu_memory rtl
          (m.virtual_address + index * page_size)
          (p * page_size)
          (q * page_size)
          m
        ≡ (
          true,
          record m {
            bitmap = write_run m.bitmap (index + q) (p - q) false;
            last_free_index = index + q;
            available = add_size m.available ((p - q) * page_size);
          },
        )
  unfolding realloc_vgpu_memory
  realloc-eq index p q m less run small =
      let change : sub_size (p * page_size) (q * page_size) ≡ (p - q) * page_size =
        omega (arith, run.0) in
      let pages : ulong ((p - q) * page_size / page_size) ≡ p - q = omega (arith, run.0) in
      let hint : ulong (
            add_size (sub_size (m.virtual_address + index * page_size) m.virtual_address)
              (q * page_size)
            / page_size)
          ≡ index + q =
        omega (arith, run.0) in
      let at = laws.set_to_clear.from_hint m.bitmap (p - q) (index + q) small run in
      let ne : (rtl.find_set_bits_and_clear m.bitmap (p - q) (index + q)).0 ≢ bitmap_failed =
        omega (arith, at, run.0) in
      let f = laws.set_to_clear.found m.bitmap (p - q) (index + q) ne in
      let differ : (p * page_size == q * page_size) ≡ false = ground arith in
      let shrinks : ltb (p * page_size) (q * page_size) ≡ false = ground arith in
      rw (differ, shrinks, change, pages, hint, record_free-found _ _ _ m ne, f.1, at) refl

  -- Shrinking a region of `p` pages to fewer succeeds, gives back the pages past the new size and
  -- only those, and keeps the rest of the region and the other regions given out.
  pub realloc-Holds :
      (k q : ℕ) (r : Region) (regions : List Region) (m : VgpuMemory)
      → Holds regions m
      → get_elem? regions k ≡ some r
      → q < r.pages
      → let (done, m') =
          realloc_vgpu_memory rtl
            (m.virtual_address + r.index * page_size)
            (r.pages * page_size)
            (q * page_size)
            m in
        (done ≡ true) × Holds (set regions k (record r { pages = q })) m'
  realloc-Holds k q r regions m v e less =
      let inside = region_inside m.bitmap.size regions k r v.inside e in
      let bits = bit_of_region regions k r m v e in
      let run : HasRun m.bitmap true (r.index + q) (r.pages - q) =
        (omega arith, λ i low high. bits i (omega arith) (omega arith)) in
      let r' : Region = record r { pages = q } in
      let total = sum_of-set (λ x. x.pages) regions k r r' e in
      rw (realloc-eq r.index r.pages q m less run v.numbered) (
        refl,
        record {
          backed = λ i. ground (arith, v.backed i, sum_of-set (covers i) regions k r r' e, bits i);
          inside = All-set _ regions k r' (omega arith) v.inside;
          accounted = omega (arith, v.accounted, v.addressed, total);
          numbered = v.numbered;
          addressed = v.addressed;
        },
      )
