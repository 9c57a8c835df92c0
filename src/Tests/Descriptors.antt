-- ===== src/Tests/Descriptors.antt =====
-- `BuildSGElement` of kernelmode/vgpu/command.c at concrete inputs, with the four descriptors that
-- the callers have room for.
use mvisor_win_vgpu_driver.Common.{ℕ, ◌+◌, ◌*◌, ◌<◌, sum_of, ◌≡◌, arith, length, some}
use mvisor_win_vgpu_driver.Memory.{page_size}
use mvisor_win_vgpu_driver.Command.Sg.{build_sg_element, sg_loop, sglist_size}
use mvisor_win_vgpu_driver.Command.Sg.Ends.{sg_loop_ends}
use mvisor_win_vgpu_driver.Command.Sg.Covers.{
  IsPaged, Placed, pages, build_sg_element-Places, build_sg_element_overflow,
  build_sg_element_overrun,
}

abbrev physical : ℕ → ℕ
physical a = a + 0x8000_0000

physical-IsPaged : IsPaged physical
physical-IsPaged p o inside = omega arith

build_sg_element-Places_example :
    let (n, ds) = build_sg_element physical sglist_size (1 * page_size) 5000 in
    (n ≡ pages 5000)
    × (length ds ≡ n)
    × (sum_of (λ d. d.length) ds ≡ 5000)
    × ((j : ℕ) → j < 5000 → Placed physical (1 * page_size + j) j ds)
build_sg_element-Places_example =
    build_sg_element-Places physical sglist_size 1 5000 physical-IsPaged (omega arith)

build_sg_element_overflow_example :
    let (n, ds) = build_sg_element physical sglist_size 0x1000 0x6000 in
    (n ≡ 0) × (length ds ≡ sglist_size + 1)
build_sg_element_overflow_example =
    build_sg_element_overflow physical sglist_size 0x1000 0x6000 (omega arith)

build_sg_element_overrun_example :
    length (build_sg_element physical sglist_size 0x1000 0x5000).1 ≡ sglist_size + 1
build_sg_element_overrun_example =
    build_sg_element_overrun physical sglist_size 0x1000 0x5000 (omega arith)

sg_loop_example :
    sg_loop physical sglist_size 9 0 0x1000 5000
    ≡ some (build_sg_element physical sglist_size 0x1000 5000)
sg_loop_example = sg_loop_ends physical sglist_size 9 0x1000 5000 (omega arith)
