-- ===== src/Memory/Bitmap.antt =====
-- The RTL_BITMAP routines of the Windows kernel, which kernelmode/vgpu/memory.c calls: they are not
-- code of the repository, so a model takes them as an argument, with the documented behaviour.
use mvisor_win_vgpu_driver.Common.{
  ℕ, ◌+◌, ◌≤◌, ◌<◌, ◌≡◌, ◌≢◌, Bool, true, false, ◌&&◌, ltb, leb, if◌then◌else◌,
}

pub record Bitmap : Type 0 where
  pub size : ℕ
  pub bit : ℕ → Bool

-- `BITMAP_FAILED`, the value that the searching routines return when they find no run.
abbrev pub bitmap_failed : ℕ
bitmap_failed = 0xffff_ffff

abbrev pub in_run : ℕ → ℕ → ℕ → Bool
in_run index n i = leb index i && ltb i (index + n)

abbrev pub write_run : Bitmap → ℕ → ℕ → Bool → Bitmap
write_run b index n v = record b { bit = λ i. if in_run index n i then v else b.bit i }

abbrev pub HasRun : Bitmap → Bool → ℕ → ℕ → Type 0
HasRun b v index n = (index + n ≤ b.size) × ((i : ℕ) → index ≤ i → i < index + n → b.bit i ≡ v)

-- Each routine takes the number of bits and a hint, and returns the index and the bitmap after.
pub record Rtl : Type 0 where
  pub find_clear_bits_and_set : Bitmap → ℕ → ℕ → ℕ × Bitmap
  pub find_set_bits_and_clear : Bitmap → ℕ → ℕ → ℕ × Bitmap

-- A search for a run of bits `v` that overwrites the run with `w`.
pub record Searches (search_run : Bitmap → ℕ → ℕ → ℕ × Bitmap) (v w : Bool) : Type 0 where
  -- What is found is a run inside the bitmap, and just that run is overwritten.
  pub found :
      (b : Bitmap) (n hint : ℕ)
      → (search_run b n hint).0 ≢ bitmap_failed
      → HasRun b v (search_run b n hint).0 n
        × ((search_run b n hint).1 ≡ write_run b (search_run b n hint).0 n w)
  -- A search that fails changes nothing.
  pub failed :
      (b : Bitmap) (n hint : ℕ)
      → (search_run b n hint).0 ≡ bitmap_failed
      → (search_run b n hint).1 ≡ b
  -- A search fails only if the bitmap has no such run.
  pub complete :
      (b : Bitmap) (n hint index : ℕ)
      → b.size < bitmap_failed
      → HasRun b v index n
      → (search_run b n hint).0 ≢ bitmap_failed
  -- The search starts at the hint.
  pub from_hint :
      (b : Bitmap) (n hint : ℕ)
      → b.size < bitmap_failed
      → HasRun b v hint n
      → (search_run b n hint).0 ≡ hint

pub record RtlLaws (rtl : Rtl) : Type 0 where
  pub clear_to_set : Searches rtl.find_clear_bits_and_set false true
  pub set_to_clear : Searches rtl.find_set_bits_and_clear true false
