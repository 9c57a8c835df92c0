-- ===== src/Memory/Regions.antt =====
-- The abstract view of kernelmode/vgpu/memory.c: the regions that have been given out.
pub mod Refine
pub mod Shrink
use mvisor_win_vgpu_driver.Common.{
  ℕ, zero, suc, ◌+◌, ◌-◌, ◌*◌, ◌^◌, ◌≤◌, ◌<◌, ◌≡◌, Bool, true, false, List, [], ◌∷◌, arith, sum_of,
  All, if◌then◌else◌, get_elem?, remove_at, some, sum_of-remove_at,
}
use mvisor_win_vgpu_driver.Memory.{VgpuMemory, page_size}
use mvisor_win_vgpu_driver.Memory.Bitmap.{in_run, bitmap_failed}

-- A region in pages.
pub record Region : Type 0 where
  pub index : ℕ
  pub pages : ℕ

abbrev pub covers : ℕ → Region → ℕ
covers i r = if in_run r.index r.pages i then 1 else 0

-- How many of the regions hold page `i`.
abbrev pub owners : ℕ → List Region → ℕ
owners i = sum_of (covers i)

abbrev pub bit_count : Bool → ℕ
bit_count true = 1
bit_count false = 0

abbrev pub pages_of : List Region → ℕ
pages_of = sum_of (λ r. r.pages)

-- The allocator has given out just these regions: each page belongs to one region if its bit is set
-- and to none if it is clear, the regions lie in the memory, and the size counted as available is
-- that of the pages left. The memory is small enough for its page numbers and addresses.
pub record Holds (regions : List Region) (m : VgpuMemory) : Type 0 where
  pub backed : (i : ℕ) → owners i regions ≡ bit_count (m.bitmap.bit i)
  pub inside : All (λ r. r.index + r.pages ≤ m.bitmap.size) regions
  pub accounted : m.available + pages_of regions * page_size ≡ m.bitmap.size * page_size
  pub numbered : m.bitmap.size < bitmap_failed
  pub addressed : m.virtual_address + m.bitmap.size * page_size < 2 ^ 64

-- The bits of a region that was given out are all set.
pub bit_of_region :
    (regions : List Region) (k : ℕ) (r : Region) (m : VgpuMemory)
    → Holds regions m
    → get_elem? regions k ≡ some r
    → (i : ℕ) → r.index ≤ i
    → i < r.index + r.pages
    → m.bitmap.bit i ≡ true
bit_of_region regions k r m v e i low high =
    ground (arith, v.backed i, sum_of-remove_at (covers i) regions k r e)

pub region_inside :
    (size : ℕ) (regions : List Region) (k : ℕ) (r : Region)
    → All (λ r. r.index + r.pages ≤ size) regions
    → get_elem? regions k ≡ some r
    → r.index + r.pages ≤ size
region_inside size [] k r h e = ground arith
region_inside size (x ∷ xs) zero r h e = ground (arith, h.0)
region_inside size (x ∷ xs) (suc k) r h e = region_inside size xs k r h.1 e
