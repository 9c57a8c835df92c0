-- ===== src/Command/Sg/Ends.antt =====
-- `BuildSGElement` of kernelmode/vgpu/command.c: its loop ends.
use Prim.Native.Nat.{min}
use mvisor_win_vgpu_driver.Common.{
  ℕ, zero, suc, ◌+◌, ◌-◌, ◌≤◌, ◌<◌, ◌≡◌, refl, true, some, List, [], arith, ◌==◌, ltb, Bool-cases,
  inl, inr,
}
use mvisor_win_vgpu_driver.Memory.{page_size, ulong}
use mvisor_win_vgpu_driver.Os.{Descriptor}
use mvisor_win_vgpu_driver.Command.Sg.{sg_loop, build_sg_element, describe, put_first}

module _ (physical : ℕ → ℕ) (max : ℕ) where
  -- The loop ends, with one result, with either fuel.
  abbrev Agree : ℕ → ℕ → ℕ → ℕ → ℕ → Type 0
  Agree fuel fuel' count pbuf size =
      (r : ℕ × List Descriptor) × (sg_loop physical max fuel count pbuf size ≡ some r)
      × (sg_loop physical max fuel' count pbuf size ≡ some r)

  Agree-stop :
      (fuel fuel' count pbuf size : ℕ) → max < count → Agree (suc fuel) (suc fuel') count pbuf size
  unfolding sg_loop
  Agree-stop fuel fuel' count pbuf size full =
      let stop : ltb max count ≡ true = ground arith in
      elim (Bool-cases (size == 0)) [
        | inl done ↦ ((count, []), rw done refl, rw done refl)
        | inr more ↦ ((0, []), rw (more, stop) refl, rw (more, stop) refl)
      ]

  Agree-step :
      (fuel fuel' count pbuf size : ℕ)
      → let length = ulong (min size page_size) in
        Agree fuel fuel' (count + 1) (pbuf + length) (size - length)
        → Agree (suc fuel) (suc fuel') count pbuf size
  unfolding sg_loop
  Agree-step fuel fuel' count pbuf size (r, e, e') = elim (Bool-cases (size == 0)) [
    | inl done ↦ ((count, []), rw done refl, rw done refl)
    | inr more ↦ elim (Bool-cases (ltb max count)) [
      | inl full ↦ ((0, []), rw (more, full) refl, rw (more, full) refl)
      | inr room ↦
          let length = ulong (min size page_size) in
          (
            put_first (describe physical pbuf length) r,
            rw (more, room, e) refl,
            rw (more, room, e') refl,
          )
    ]
  ]

  Agree-enough :
      (fuel fuel' count pbuf size : ℕ)
      → max < fuel + count
      → max < fuel' + count
      → Agree (suc fuel) (suc fuel') count pbuf size
  Agree-enough zero fuel' count pbuf size enough enough' =
      Agree-stop zero fuel' count pbuf size (omega arith)
  Agree-enough (suc fuel) zero count pbuf size enough enough' =
      Agree-stop (suc fuel) zero count pbuf size (omega arith)
  Agree-enough (suc fuel) (suc fuel') count pbuf size enough enough' =
      Agree-step (suc fuel) (suc fuel') count pbuf size
        (Agree-enough fuel fuel' (count + 1) _ _ (omega arith) (omega arith))

  -- Whatever the buffer is, the loop ends within MaxSgCount + 2 rounds, and more fuel changes nothing.
  pub sg_loop_ends :
      (fuel pbuf size : ℕ)
      → max + 2 ≤ fuel
      → sg_loop physical max fuel 0 pbuf size ≡ some (build_sg_element physical max pbuf size)
  unfolding build_sg_element
  sg_loop_ends zero pbuf size enough = absurd (omega arith)
  sg_loop_ends (suc fuel) pbuf size enough =
      let (r, e, e') = Agree-enough fuel (max + 1) 0 pbuf size (omega arith) (omega arith) in
      let rounds : max + 2 ≡ suc (max + 1) = omega arith in rw (e, rounds, e') refl
