-- ===== src/Command/Sg/Covers.antt =====
-- `BuildSGElement` of kernelmode/vgpu/command.c: what the descriptors cover, and when there are too
-- many.
use Prim.Native.Nat.{min}
use mvisor_win_vgpu_driver.Common.{
  ℕ, zero, suc, ◌+◌, ◌-◌, ◌*◌, ◌/◌, ◌≤◌, ◌<◌, ◌≡◌, ◌≢◌, refl, sym, ◌∙◌, ◌%◌, false, some, List, [],
  ◌∷◌, arith, ◌==◌, ltb, length, sum_of, get_elem?, Bool-cases, inl, inr, ==→eq, ==→ne,
}
use mvisor_win_vgpu_driver.Memory.{page_size, ulong}
use mvisor_win_vgpu_driver.Os.{Descriptor}
use mvisor_win_vgpu_driver.Command.Sg.{sg_loop, build_sg_element, describe}

-- The number of pages that a size takes.
abbrev pub pages : ℕ → ℕ
pages size = (size + (page_size - 1)) / page_size

-- The descriptors hold the buffer page by page, in order, and nothing more.
pub record Covers (physical : ℕ → ℕ) (pbuf size : ℕ) (ds : List Descriptor) : Type 0 where
  pub counted : length ds ≡ pages size
  pub total : sum_of (λ d. d.length) ds ≡ size
  pub placed :
      (k : ℕ)
      → k < pages size
      → get_elem? ds k
        ≡ some (describe physical (pbuf + k * page_size) (min (size - k * page_size) page_size))

-- The bytes of a page are together in physical memory.
abbrev pub IsPaged : (ℕ → ℕ) → Type 0
IsPaged physical =
    (p o : ℕ) → o < page_size → physical (p * page_size + o) ≡ physical (p * page_size) + o

-- The descriptor of the page that byte `j` of a buffer is on holds the byte, and says where it is.
abbrev pub Placed : (ℕ → ℕ) → ℕ → ℕ → List Descriptor → Type 0
Placed physical address j ds =
    (d : Descriptor) × (get_elem? ds (j / page_size) ≡ some d)
    × (j % page_size < d.length)
    × (d.phys_addr + j % page_size ≡ physical address)

module _ (physical : ℕ → ℕ) (max : ℕ) where
  Covers-Placed :
      (p size : ℕ) (ds : List Descriptor)
      → IsPaged physical
      → Covers physical (p * page_size) size ds
      → (j : ℕ) → j < size
      → Placed physical (p * page_size + j) j ds
  Covers-Placed p size ds paged c j inside =
      let k = j / page_size in
      let e : p * page_size + k * page_size ≡ (p + k) * page_size = omega arith in
      let at : p * page_size + j ≡ (p + k) * page_size + j % page_size = omega arith in
      (
        describe physical (p * page_size + k * page_size) (min (size - k * page_size) page_size),
        c.placed k (omega arith),
        omega arith,
        rw (e, at) (sym (paged (p + k) (j % page_size) (omega arith))),
      )

  Covers-nil : (pbuf : ℕ) → Covers physical pbuf 0 []
  Covers-nil pbuf = record { counted = refl; total = refl; placed = λ k h. absurd (omega arith) }

  placed_cons :
      (pbuf size : ℕ) (ds : List Descriptor)
      → 0 < size
      → Covers physical (pbuf + min size page_size) (size - min size page_size) ds
      → (k : ℕ) → k < pages size
      → get_elem? (describe physical pbuf (min size page_size) ∷ ds) k
        ≡ some (describe physical (pbuf + k * page_size) (min (size - k * page_size) page_size))
  placed_cons pbuf size ds pos c zero h = ground arith
  placed_cons pbuf size ds pos c (suc k) h =
      let e : min size page_size ≡ page_size = omega arith in
      let e1 : pbuf + suc k * page_size ≡ pbuf + min size page_size + k * page_size =
        omega (arith, e) in
      let e2 : size - suc k * page_size ≡ size - min size page_size - k * page_size =
        omega (arith, e) in
      rw (e1, e2) (c.placed k (omega (arith, e)))

  Covers-cons :
      (pbuf size : ℕ) (ds : List Descriptor)
      → 0 < size
      → Covers physical (pbuf + min size page_size) (size - min size page_size) ds
      → Covers physical pbuf size (describe physical pbuf (min size page_size) ∷ ds)
  Covers-cons pbuf size ds pos c = record {
    counted = omega (arith, c.counted);
    total = omega (arith, c.total);
    placed = placed_cons pbuf size ds pos c;
  }

  -- What the loop does from `count` descriptors on, if it does not overflow.
  abbrev Succeeds : ℕ → ℕ → ℕ → ℕ → Type 0
  Succeeds fuel count pbuf size =
      (ds : List Descriptor) × (sg_loop physical max fuel count pbuf size
        ≡ some (count + pages size, ds))
      × Covers physical pbuf size ds

  Succeeds-more :
      (fuel count pbuf size : ℕ)
      → size ≢ 0
      → count ≤ max
      → Succeeds fuel (count + 1) (pbuf + min size page_size) (size - min size page_size)
      → Succeeds (suc fuel) count pbuf size
  unfolding sg_loop
  Succeeds-more fuel count pbuf size pos room (ds, e, c) =
      let l : ulong (min size page_size) ≡ min size page_size = omega arith in
      let more : (size == 0) ≡ false = ground arith in
      let fits : ltb max count ≡ false = ground arith in
      let n : count + 1 + pages (size - min size page_size) ≡ count + pages size = omega arith in
      (
        describe physical pbuf (min size page_size) ∷ ds,
        rw (more, fits, l, e, n) refl,
        Covers-cons pbuf size ds (omega arith) c,
      )

  Succeeds-done : (fuel count pbuf size : ℕ) → size ≡ 0 → Succeeds (suc fuel) count pbuf size
  unfolding sg_loop
  Succeeds-done fuel count pbuf size e = rw e ([], ground arith, Covers-nil pbuf)

  sg_loop-Succeeds :
      (fuel count pbuf size : ℕ)
      → count + pages size ≤ max + 1
      → pages size < fuel
      → Succeeds fuel count pbuf size
  sg_loop-Succeeds zero count pbuf size fits enough = absurd (omega arith)
  sg_loop-Succeeds (suc fuel) count pbuf size fits enough = elim (Bool-cases (size == 0)) [
    | inl done ↦ Succeeds-done fuel count pbuf size (==→eq size 0 done)
    | inr more ↦
        let pos = ==→ne size 0 more in
        Succeeds-more fuel count pbuf size pos (omega (arith, pos)) (
          sg_loop-Succeeds fuel (count + 1) (pbuf + min size page_size) (size - min size page_size)
            (omega (arith, pos)) (omega (arith, pos)))
  ]

  pub build_sg_element-Covers :
      (pbuf size : ℕ)
      → pages size ≤ max + 1
      → let (n, ds) = build_sg_element physical max pbuf size in
        (n ≡ pages size) × Covers physical pbuf size ds
  unfolding build_sg_element
  build_sg_element-Covers pbuf size fits =
      let (ds, e, c) = sg_loop-Succeeds (max + 2) 0 pbuf size (omega arith) (omega arith) in
      rw e (omega arith, c)

  -- A buffer that starts with the page `p` and takes at most `MaxSgCount + 1` pages is described
  -- byte for byte, where the bytes of each page are together in physical memory: the result is the
  -- number of its pages and of the descriptors, these have its size in total, and each byte is at its
  -- place in the descriptor of its page, at its own physical address.
  pub build_sg_element-Places :
      (p size : ℕ)
      → IsPaged physical
      → pages size ≤ max + 1
      → let (n, ds) = build_sg_element physical max (p * page_size) size in
        (n ≡ pages size)
        × (length ds ≡ n)
        × (sum_of (λ d. d.length) ds ≡ size)
        × ((j : ℕ) → j < size → Placed physical (p * page_size + j) j ds)
  build_sg_element-Places p size paged fits =
      let (n, c) = build_sg_element-Covers (p * page_size) size fits in
      (n, c.counted ∙ sym n, c.total, λ j inside. Covers-Placed p size _ paged c j inside)

  abbrev Overflows : ℕ → ℕ → ℕ → ℕ → Type 0
  Overflows fuel count pbuf size =
      (ds : List Descriptor) × (sg_loop physical max fuel count pbuf size ≡ some (0, ds))
      × (length ds + count ≡ max + 1)

  Overflows-more :
      (fuel count pbuf size : ℕ)
      → size ≢ 0
      → count ≤ max
      → Overflows fuel (count + 1) (pbuf + min size page_size) (size - min size page_size)
      → Overflows (suc fuel) count pbuf size
  unfolding sg_loop
  Overflows-more fuel count pbuf size pos room (ds, e, c) =
      let l : ulong (min size page_size) ≡ min size page_size = omega arith in
      let more : (size == 0) ≡ false = ground arith in
      let fits : ltb max count ≡ false = ground arith in
      (
        describe physical pbuf (min size page_size) ∷ ds,
        rw (more, fits, l, e) refl,
        omega (arith, c),
      )

  Overflows-done :
      (fuel count pbuf size : ℕ) → size ≢ 0 → count ≡ max + 1 → Overflows (suc fuel) count pbuf size
  unfolding sg_loop
  Overflows-done fuel count pbuf size pos e = ([], ground arith, omega arith)

  sg_loop-Overflows :
      (fuel count pbuf size : ℕ)
      → max + 1 < count + pages size
      → count ≤ max + 1
      → max + 1 < count + fuel
      → Overflows fuel count pbuf size
  sg_loop-Overflows zero count pbuf size over low enough = absurd (omega arith)
  sg_loop-Overflows (suc fuel) count pbuf size over low enough =
      let pos : size ≢ 0 = omega arith in
      elim (Bool-cases (count == max + 1)) [
        | inl last ↦ Overflows-done fuel count pbuf size pos (==→eq count (max + 1) last)
        | inr more ↦
            let next = ==→ne count (max + 1) more in
            Overflows-more fuel count pbuf size pos (omega (arith, next)) (
              sg_loop-Overflows fuel (count + 1) (pbuf + min size page_size)
                (size - min size page_size) (omega (arith, pos)) (omega (arith, next))
                (omega arith))
      ]

  -- A larger buffer is refused: the result is 0, after `MaxSgCount + 1` descriptors were written.
  pub build_sg_element_overflow :
      (pbuf size : ℕ)
      → max + 1 < pages size
      → let (n, ds) = build_sg_element physical max pbuf size in (n ≡ 0) × (length ds ≡ max + 1)
  unfolding build_sg_element
  build_sg_element_overflow pbuf size over =
      let (ds, e, c) =
        sg_loop-Overflows (max + 2) 0 pbuf size (omega arith) (omega arith) (omega arith) in
      rw e (refl, omega (arith, c))

  -- The guard lets through one page too many: for a buffer of more than `MaxSgCount` pages the
  -- function writes one descriptor more than the caller has room for.
  pub build_sg_element_overrun :
      (pbuf size : ℕ)
      → max < pages size
      → length (build_sg_element physical max pbuf size).1 ≡ max + 1
  build_sg_element_overrun pbuf size over = elim (Bool-cases (pages size == max + 1)) [
    | inl exact ↦
        let e = ==→eq _ _ exact in
        omega (arith, e, (build_sg_element-Covers pbuf size (omega (arith, e))).1.counted)
    | inr more ↦ (build_sg_element_overflow pbuf size (omega (arith, ==→ne _ _ more))).1
  ]
