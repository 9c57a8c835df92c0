-- ===== src/Tests/Identifiers.antt =====
-- The identifier pools of kernelmode/vgpu/idr.c at concrete inputs.
use mvisor_win_vgpu_driver.Common.{
  ℕ, ◌<◌, ◌≡◌, refl, List, [], ◌∷◌, arith, count, IsDistinct, remove_first, ◌==◌,
}
use mvisor_win_vgpu_driver.Idr.{
  Idr, initialize_idr, fresh_idr, get_id_from_idr_without_cache, get_id_from_idr, put_id_to_idr,
}
use mvisor_win_vgpu_driver.Idr.Fresh.{
  issue, Owns, issue-IsDistinct, get_id_from_idr-Owns, put_id_to_idr-Owns,
}

-- Identifiers 1, 2 and 3 were issued, and 2 was given back.
abbrev used : Idr
used = record fresh_idr { id = 4; free_ids = 2 ∷ [] }

abbrev in_use : List ℕ
in_use = 1 ∷ 3 ∷ []

first_three : issue 4 3 initialize_idr.virgl_resource ≡ 1 ∷ 2 ∷ 3 ∷ []
unfolding initialize_idr get_id_from_idr_without_cache
first_three = refl

-- 0 is reserved, and comes after 2 ^ 32 - 1 identifiers of four bytes.
wraps : issue 4 2 (record fresh_idr { id = 0xffff_ffff }) ≡ 0xffff_ffff ∷ 0 ∷ []
unfolding get_id_from_idr_without_cache
wraps = refl

reuses : (get_id_from_idr 4 used).0 ≡ 2
unfolding get_id_from_idr
reuses = refl

used-Owns : Owns in_use used
used-Owns = record { once = λ i. ground arith; started = omega arith }

issue-IsDistinct_example :
    IsDistinct (issue 4 3 fresh_idr) × ((i : ℕ) → i < 1 → count i (issue 4 3 fresh_idr) ≡ 0)
issue-IsDistinct_example = issue-IsDistinct 4 3 fresh_idr (omega arith) (omega arith) (omega arith)

get_id_from_idr-Owns_example :
    let (i, r) = get_id_from_idr 4 used in (count i in_use ≡ 0) × Owns (i ∷ in_use) r
get_id_from_idr-Owns_example =
    get_id_from_idr-Owns 4 in_use used used-Owns (omega arith) (omega arith)

put_id_to_idr-Owns_example :
    Owns (remove_first (◌==◌ 3) in_use) (put_id_to_idr 4 3 used)
    × (get_id_from_idr 4 (put_id_to_idr 4 3 used) ≡ (3, used))
put_id_to_idr-Owns_example =
    put_id_to_idr-Owns 4 3 in_use used used-Owns (omega arith) (omega arith)
