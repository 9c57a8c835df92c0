-- ===== src/Command/Sg.antt =====
-- `BuildSGElement` of kernelmode/vgpu/command.c: a buffer as a list of descriptors.
pub mod Covers
pub mod Ends
use mathlib.Core.Option
use Prim.Native.Nat.{min}
use mvisor_win_vgpu_driver.Common.{
  ℕ, zero, suc, ◌+◌, ◌-◌, ◌*◌, ◌/◌, ◌%◌, ◌^◌, ◌≤◌, ◌<◌, ◌≡◌, refl, Bool, Option, none, some, List,
  [], ◌∷◌, arith, ◌==◌, ltb, if◌then◌else◌, length, sum_of,
}
use mvisor_win_vgpu_driver.Memory.{page_size, ulong}
use mvisor_win_vgpu_driver.Os.{Descriptor}

-- `SGLIST_SIZE`
abbrev pub sglist_size : ℕ
sglist_size = 4

abbrev pub describe : (ℕ → ℕ) → ℕ → ℕ → Descriptor
describe physical pbuf length = record { phys_addr = physical pbuf; length = length }

abbrev pub put_first : Descriptor → ℕ × List Descriptor → ℕ × List Descriptor
put_first d (n, ds) = (n, d ∷ ds)

module _ (physical : ℕ → ℕ) (max_sg_count : ℕ) where
  -- The loop, with fuel: none is a loop that has not ended. The result is the value returned and
  -- the descriptors written to `pSgList`, from its start.
  unfoldable pub sg_loop : ℕ → ℕ → ℕ → ℕ → Option (ℕ × List Descriptor)
  sg_loop zero sg_count pbuf size = none
  sg_loop (suc fuel) sg_count pbuf size =
      let length = ulong (min size page_size) in
      let rest =
        Option.map (put_first (describe physical pbuf length))
          (sg_loop fuel (sg_count + 1) (pbuf + length) (size - length)) in
      if size == 0
      then some (sg_count, [])
      else if ltb max_sg_count sg_count
      then some (0, [])
      else rest

  -- The loop writes at most `MaxSgCount + 1` descriptors, so it ends within one round more.
  unfoldable pub build_sg_element : ℕ → ℕ → ℕ × List Descriptor
  build_sg_element pbuf size = Option.get_or (sg_loop (max_sg_count + 2) 0 pbuf size) (0, [])
