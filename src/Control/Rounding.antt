-- ===== src/Control/Rounding.antt =====
-- The sizes that kernelmode/vgpu/control.c rounds up to whole pages.
use mvisor_win_vgpu_driver.Common.{ℕ, ◌+◌, ◌-◌, ◌%◌, ◌^◌, ◌≤◌, ◌<◌, ◌≡◌, arith}
use mvisor_win_vgpu_driver.Memory.{page_size}
use mvisor_win_vgpu_driver.Control.Resources.{round_up, backing_size}

-- A size of at most 2^32 - 4096 gets a backing of whole pages, at least one, that holds it and is
-- at most a page larger.
pub backing_size_covers :
    (size : ℕ)
    → size ≤ 2 ^ 32 - page_size
    → (size ≤ backing_size size)
      × (backing_size size % page_size ≡ 0)
      × (page_size ≤ backing_size size)
      × (backing_size size ≤ size + page_size)
unfolding backing_size
backing_size_covers size fits = ground arith

-- A 32-bit size past that wraps around: the backing is empty, and the size that the copy of a
-- command uses is larger than the memory.
pub backing_size_wraps :
    (size : ℕ)
    → 2 ^ 32 - page_size < size
    → size < 2 ^ 32
    → (backing_size size ≡ 0) × (round_up 32 size < size)
unfolding backing_size
backing_size_wraps size over narrow = ground arith
