-- ===== src/Idr/Fresh.antt =====
-- kernelmode/vgpu/idr.c: identifiers are not issued again while they are in use.
use mvisor_win_vgpu_driver.Common.{
  ℕ, zero, suc, ◌+◌, ◌*◌, ◌^◌, ◌≤◌, ◌<◌, ◌≡◌, refl, ◌&&◌, List, [], ◌∷◌, arith, count, IsDistinct,
  ◌==◌, ltb, leb, if◌then◌else◌, remove_first,
}
use native.Mathlib.Nat.{mod-eq_of_lt}
use mvisor_win_vgpu_driver.Idr.{
  Idr, get_id_from_idr_without_cache, get_id_from_idr, get_id, put_id_to_idr, bump,
}

-- `n` calls of `GetIdFromIdrWithoutCache` in a row.
abbrev pub issue : ℕ → ℕ → Idr → List ℕ
issue size zero r = []
issue size (suc n) r = let (id, r') = get_id_from_idr_without_cache size r in id ∷ issue size n r'

abbrev within : ℕ → ℕ → ℕ → ℕ
within low high i = if leb low i && ltb i high then 1 else 0

-- The issued identifiers are those from the counter on, each once.
count-issue :
    (size n i : ℕ) (r : Idr)
    → r.id + n < 2 ^ 64
    → r.id + n ≤ 2 ^ (8 * size)
    → count i (issue size n r) ≡ within r.id (r.id + n) i
unfolding get_id_from_idr_without_cache
count-issue size zero i r wide fits = ground arith
count-issue size (suc n) i r wide fits =
    let m = mod-eq_of_lt {n = r.id} {m = 2 ^ (8 * size)} (omega arith) in
    ground (arith, m, count-issue size n i (bump r))

-- Until the counter reaches the width of the copied identifier, the identifiers issued by
-- successive calls are pairwise different, and none is 0 or one issued earlier.
pub issue-IsDistinct :
    (size n : ℕ) (r : Idr)
    → 1 ≤ r.id
    → r.id + n < 2 ^ 64
    → r.id + n ≤ 2 ^ (8 * size)
    → IsDistinct (issue size n r) × ((i : ℕ) → i < r.id → count i (issue size n r) ≡ 0)
issue-IsDistinct size n r one wide fits = (
  λ i. ground (arith, count-issue size n i r wide fits),
  λ i h. ground (arith, count-issue size n i r wide fits),
)

-- The identifiers in use and the freed ones are those below the counter, each at most once.
pub record Owns (live : List ℕ) (r : Idr) : Type 0 where
  pub once : (i : ℕ) → count i live + count i r.free_ids ≤ within 1 r.id i
  pub started : 1 ≤ r.id

Owns-bump :
    (live : List ℕ) (r : Idr)
    → Owns live r
    → r.free_ids ≡ []
    → r.id + 1 < 2 ^ 64
    → Owns (r.id ∷ live) (bump r)
Owns-bump live r v e room = record {
  once = λ i. ground (arith, v.once i, v.started, e);
  started = omega (arith, v.started);
}

Owns-get :
    (size : ℕ) (live free : List ℕ) (r : Idr)
    → free ≡ r.free_ids
    → Owns live r
    → r.id < 2 ^ (8 * size)
    → r.id + 1 < 2 ^ 64
    → let (i, r') = get_id size r free in (count i live ≡ 0) × Owns (i ∷ live) r'
Owns-get size live [] r e v fits room =
    let m = mod-eq_of_lt {n = r.id} {m = 2 ^ (8 * size)} fits in
    (
      ground (arith, m, v.once r.id, e),
      record {
        once = λ i. ground (arith, m, v.once i, v.started, e);
        started = omega (arith, v.started);
      },
    )
Owns-get size live (f ∷ rest) r e v fits room =
    let m = mod-eq_of_lt {n = f} {m = 2 ^ (8 * size)} (ground (arith, v.once f, e)) in
    (
      ground (arith, m, v.once f, e),
      record { once = λ i. ground (arith, m, v.once i, e); started = v.started },
    )

-- `GetIdFromIdr`, from the free list or from the counter, hands out an identifier that was not in
-- use, while the counter is below the width of the copy and does not wrap.
pub get_id_from_idr-Owns :
    (size : ℕ) (live : List ℕ) (r : Idr)
    → Owns live r
    → r.id < 2 ^ (8 * size)
    → r.id + 1 < 2 ^ 64
    → let (i, r') = get_id_from_idr size r in (count i live ≡ 0) × Owns (i ∷ live) r'
unfolding get_id_from_idr
get_id_from_idr-Owns size live r v fits room = Owns-get size live r.free_ids r refl v fits room

count-remove :
    (i j : ℕ) (xs : List ℕ)
    → 0 < count j xs
    → count i (remove_first (◌==◌ j) xs) + (if j == i then 1 else 0) ≡ count i xs
count-remove i j [] h = absurd (omega arith)
count-remove i j (x ∷ xs) h = ground (arith, count-remove i j xs)

-- `PutIdToIdr` of an identifier in use gives it back, and the next `GetIdFromIdr` returns it.
pub put_id_to_idr-Owns :
    (size i : ℕ) (live : List ℕ) (r : Idr)
    → Owns live r
    → 0 < count i live
    → r.id ≤ 2 ^ (8 * size)
    → Owns (remove_first (◌==◌ i) live) (put_id_to_idr size i r)
      × (get_id_from_idr size (put_id_to_idr size i r) ≡ (i, r))
unfolding put_id_to_idr get_id_from_idr
put_id_to_idr-Owns size i live r v used fits =
    let m = mod-eq_of_lt {n = i} {m = 2 ^ (8 * size)} (ground (arith, v.once i)) in
    (
      record {
        once = λ j. ground (arith, m, v.once j, count-remove j i live);
        started = v.started;
      },
      ground (arith, m),
    )
