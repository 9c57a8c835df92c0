-- ===== src/Ownership/Memory.antt =====
-- kernelmode/vgpu/memory.c as its users see it: each holds an address and a size.
use mvisor_win_vgpu_driver.Common.{
  ℕ, ◌+◌, ◌-◌, ◌*◌, ◌/◌, ◌%◌, ◌^◌, ◌≤◌, ◌<◌, ◌≡◌, ◌≢◌, refl, ◌∙◌, Bool, true, false, Option, none,
  some, arith, ◌==◌, ltb, leb, ◌&&◌, if◌then◌else◌, Bool-cases, inl, inr, ==→eq, ==→ne, ==_of_ne,
  ltb→le,
}
use mvisor_win_vgpu_driver.Memory.{
  VgpuMemory, MemoryDescriptor, page_size, ulong, allocate_vgpu_memory, free_vgpu_memory,
  record_allocation, add_size,
}
use mvisor_win_vgpu_driver.Memory.Bitmap.{Bitmap, Rtl, RtlLaws, HasRun, bitmap_failed, write_run}
use mvisor_win_vgpu_driver.Memory.Regions.{Region, covers, bit_count}
use mvisor_win_vgpu_driver.Memory.Regions.Refine.{free-eq, record_allocation-failed}

-- Memory that someone holds.
pub record Claim : Type 0 where
  pub address : ℕ
  pub size : ℕ

abbrev pub region_of : ℕ → Claim → Region
region_of base c = record { index = (c.address - base) / page_size; pages = c.size / page_size }

-- Whole pages inside the memory.
abbrev pub well_placed : ℕ → ℕ → Claim → Bool
well_placed base n c =
    leb base c.address
    && (c.address - base) % page_size == 0
    && c.size % page_size == 0
    && leb (c.address - base + c.size) (n * page_size)

abbrev pub misplaced : ℕ → ℕ → Claim → ℕ
misplaced base n c = if well_placed base n c then 0 else 1

abbrev pub covers_claim : ℕ → ℕ → Claim → ℕ
covers_claim base i c = covers i (region_of base c)

abbrev pub claim_pages : Claim → ℕ
claim_pages c = c.size / page_size

abbrev size_of : Claim → ℕ
size_of c = c.size

-- Memory of the weight's claims is given back: what is available grows by their sizes, and of the
-- allocated pages exactly those that they cover are free then.
pub record Gives (weight : (Claim → ℕ) → ℕ) (m m' : VgpuMemory) : Type 0 where
  pub available : m'.available ≡ m.available + weight size_of
  pub cleared :
      (i : ℕ)
      → bit_count (m'.bitmap.bit i) + weight (covers_claim m.virtual_address i)
        ≡ bit_count (m.bitmap.bit i)
  pub placed : m'.virtual_address ≡ m.virtual_address

pub Gives-refl : (m : VgpuMemory) → Gives (λ f. 0) m m
Gives-refl m = record { available = omega arith; cleared = λ i. omega arith; placed = refl }

pub Gives-trans :
    (v w : (Claim → ℕ) → ℕ) (a b c : VgpuMemory)
    → Gives v a b
    → Gives w b c
    → Gives (λ f. v f + w f) a c
Gives-trans v w a b c x y = record {
  available = omega (arith, x.available, y.available);
  cleared = λ i.
      let later : bit_count (c.bitmap.bit i) + w (covers_claim a.virtual_address i)
          ≡ bit_count (b.bitmap.bit i) =
        rw (← x.placed) (y.cleared i) in
      omega (arith, x.cleared i, later);
  placed = y.placed ∙ x.placed;
}

pub Gives-same :
    (v w : (Claim → ℕ) → ℕ) (m m' : VgpuMemory)
    → ((f : Claim → ℕ) → v f ≡ w f)
    → Gives v m m'
    → Gives w m m'
Gives-same v w m m' same x = record {
  available = omega (arith, x.available, same size_of);
  cleared = λ i. omega (arith, x.cleared i, same (covers_claim m.virtual_address i));
  placed = x.placed;
}

-- The memory backs its users, whose claims `weight` adds up under a measure: no page has two users,
-- a page with a user is allocated, every claim is whole pages inside the memory, and what is
-- available and what is claimed fit in it. A page may be allocated and have no user.
pub record Backs (weight : (Claim → ℕ) → ℕ) (m : VgpuMemory) : Type 0 where
  pub backed : (i : ℕ) → weight (covers_claim m.virtual_address i) ≤ bit_count (m.bitmap.bit i)
  pub placed : weight (misplaced m.virtual_address m.bitmap.size) ≡ 0
  pub accounted : m.available + weight claim_pages * page_size ≤ m.bitmap.size * page_size
  pub numbered : m.bitmap.size < bitmap_failed
  pub addressed : m.virtual_address + m.bitmap.size * page_size < 2 ^ 64

-- Memory that is no longer used may stay allocated.
pub Backs-less :
    (w w' : (Claim → ℕ) → ℕ) (m : VgpuMemory)
    → ((f : Claim → ℕ) → w' f ≤ w f)
    → Backs w m
    → Backs w' m
Backs-less w w' m less v = record {
  backed = λ i. omega (arith, v.backed i, less (covers_claim m.virtual_address i));
  placed = omega (arith, v.placed, less (misplaced m.virtual_address m.bitmap.size));
  accounted = omega (arith, v.accounted, less claim_pages);
  numbered = v.numbered;
  addressed = v.addressed;
}

-- The weights with one claim more.
abbrev pub with_claim : Claim → ((Claim → ℕ) → ℕ) → (Claim → ℕ) → ℕ
with_claim c w f = f c + w f

abbrev pub descriptor_claim : MemoryDescriptor → ℕ → Claim
descriptor_claim d size = record { address = d.virtual_address; size = size }

abbrev pub Granted : ((Claim → ℕ) → ℕ) → ℕ → Option MemoryDescriptor → VgpuMemory → Type 0
Granted w size none m = Backs w m
Granted w size (some d) m = Backs (with_claim (descriptor_claim d size) w) m

region_of-page :
    (base index n i : ℕ)
    → covers_claim base i (record { address = base + index * page_size; size = n * page_size })
      ≡ covers i (record { index = index; pages = n })
region_of-page base index n i =
    let e1 : (base + index * page_size - base) / page_size ≡ index = omega arith in
    let e2 : n * page_size / page_size ≡ n = omega arith in rw (e1, e2) refl

misplaced-page :
    (base index n size : ℕ)
    → index + n ≤ size
    → misplaced base size (record { address = base + index * page_size; size = n * page_size }) ≡ 0
misplaced-page base index n size inside = ground arith

record_allocation-Granted :
    (n index : ℕ) (b : Bitmap) (w : (Claim → ℕ) → ℕ) (m : VgpuMemory)
    → Backs w m
    → n * page_size ≤ m.available
    → HasRun m.bitmap false index n
    → index ≢ bitmap_failed
    → b ≡ write_run m.bitmap index n true
    → let (d, m') = record_allocation (n * page_size) index b m in Granted w (n * page_size) d m'
unfolding record_allocation
record_allocation-Granted n index b w m v fits run found e =
    let at : (m.virtual_address + index * page_size) % 2 ^ 64
        ≡ m.virtual_address + index * page_size =
      omega (arith, v.addressed, run.0) in
    rw (==_of_ne index bitmap_failed found) (
      rw (e, at)
        (record {
          backed = λ i.
              rw (region_of-page m.virtual_address index n i) (ground (arith, v.backed i, run.1 i));
          placed =
              omega (arith, v.placed, misplaced-page m.virtual_address index n m.bitmap.size run.0);
          accounted = ground (arith, v.accounted, v.addressed);
          numbered = v.numbered;
          addressed = v.addressed;
        }))

-- A claim of the memory has its bits set.
claim-HasRun :
    (c : Claim) (w w' : (Claim → ℕ) → ℕ) (m : VgpuMemory)
    → ((f : Claim → ℕ) → w f ≡ f c + w' f)
    → Backs w m
    → well_placed m.virtual_address m.bitmap.size c ≡ true
    → let r = region_of m.virtual_address c in HasRun m.bitmap true r.index r.pages
claim-HasRun c w w' m split v at = (
  ground arith,
  λ i low high. ground (arith, v.backed i, split (covers_claim m.virtual_address i)),
)

module _ (rtl : Rtl) (laws : RtlLaws rtl) where
  -- Memory of whole pages that is allocated is a new claim; if there is none nothing changes.
  pub allocate-Granted :
      (n : ℕ) (w : (Claim → ℕ) → ℕ) (m : VgpuMemory)
      → Backs w m
      → let (d, m') = allocate_vgpu_memory rtl (n * page_size) m in Granted w (n * page_size) d m'
  unfolding allocate_vgpu_memory
  allocate-Granted n w m v = elim (Bool-cases (ltb m.available (n * page_size))) [
    | inl short ↦ rw short v
    | inr enough ↦
        let pages : ulong (n * page_size / page_size) ≡ n =
          omega (arith, ltb→le _ _ enough, v.accounted, v.numbered) in
        let (i, b) = rtl.find_clear_bits_and_set m.bitmap n m.last_free_index in
        rw (enough, pages)
          (elim (Bool-cases (i == bitmap_failed)) [
            | inl none_found ↦
                let e = ==→eq _ _ none_found in
                rw
                  (
                    e,
                    record_allocation-failed _ _ m
                        (laws.clear_to_set.failed m.bitmap n m.last_free_index e),
                  )
                  v
            | inr one_found ↦
                let ne = ==→ne _ _ one_found in
                let f = laws.clear_to_set.found m.bitmap n m.last_free_index ne in
                record_allocation-Granted n i b w m v (ltb→le _ _ enough) f.0 ne f.1
          ])
  ]

  -- Memory that one user frees is there for a new one, and available.
  free_claim :
      (c : Claim) (w w' : (Claim → ℕ) → ℕ) (m : VgpuMemory)
      → ((f : Claim → ℕ) → w f ≡ f c + w' f)
      → Backs w m
      → let m' = free_vgpu_memory rtl c.address c.size m in Backs w' m' × Gives (λ f. f c) m m'
  free_claim c w w' m split v =
      let r = region_of m.virtual_address c in
      let at : well_placed m.virtual_address m.bitmap.size c ≡ true =
        ground (arith, v.placed, split (misplaced m.virtual_address m.bitmap.size)) in
      let run = claim-HasRun c w w' m split v at in
      let address : c.address ≡ m.virtual_address + r.index * page_size = ground arith in
      let size : c.size ≡ r.pages * page_size = ground arith in
      let used = split claim_pages in
      let sum : add_size m.available (r.pages * page_size) ≡ m.available + r.pages * page_size =
        omega (arith, v.accounted, v.addressed, used) in
      rw (address, size, free-eq rtl laws r.index r.pages m run v.numbered, sum)
        (
          record {
            backed = λ i. ground (arith, v.backed i, split (covers_claim m.virtual_address i));
            placed = omega (arith, v.placed, split (misplaced m.virtual_address m.bitmap.size));
            accounted = omega (arith, v.accounted, used);
            numbered = v.numbered;
            addressed = v.addressed;
          },
          record {
            available = refl;
            cleared = λ i. ground (arith, v.backed i, split (covers_claim m.virtual_address i));
            placed = refl;
          },
        )

  module _ (c : Claim) (w w' : (Claim → ℕ) → ℕ) (m : VgpuMemory) where
    pub free-Backs :
        ((f : Claim → ℕ) → w f ≡ f c + w' f)
        → Backs w m
        → Backs w' (free_vgpu_memory rtl c.address c.size m)
    free-Backs split v = (free_claim c w w' m split v).0

    pub free-Gives :
        ((f : Claim → ℕ) → w f ≡ f c + w' f)
        → Backs w m
        → Gives (λ f. f c) m (free_vgpu_memory rtl c.address c.size m)
    free-Gives split v = (free_claim c w w' m split v).1
