-- ===== src/Tests/FirstFit.antt =====
-- A first-fit search that behaves as kernelmode/vgpu/memory.c expects of the RTL_BITMAP routines.
use mvisor_win_vgpu_driver.Common.{
  ℕ, zero, suc, ◌+◌, ◌≤◌, ◌<◌, ◌≡◌, ◌≢◌, refl, sym, ◌∙◌, Bool, true, false, ◌&&◌, arith, leb, ◌==◌,
  if◌then◌else◌, Bool-cases, inl, inr, ==→eq, ==→ne, ==_of_ne,
}
use mvisor_win_vgpu_driver.Memory.Bitmap.{
  Bitmap, Rtl, RtlLaws, Searches, HasRun, write_run, bitmap_failed,
}

same : Bool → Bool → Bool
same true b = b
same false true = false
same false false = true

all_bits : Bitmap → Bool → ℕ → ℕ → Bool
unfolding same
all_bits b v zero i = true
all_bits b v (suc n) i = same (b.bit i) v && all_bits b v n (i + 1)

all_bits_sound :
    (b : Bitmap) (v : Bool) (n i j : ℕ) → all_bits b v n i ≡ true → i ≤ j → j < i + n → b.bit j ≡ v
unfolding all_bits
all_bits_sound b v zero i j h low high = absurd (omega arith)
all_bits_sound b v (suc n) i j h low high = elim (Bool-cases (i == j)) [
  | inl here ↦ rw (← ==→eq i j here) (ground arith)
  | inr later ↦
      all_bits_sound b v n (i + 1) j (ground arith) (omega (arith, ==→ne i j later)) (omega arith)
]

all_bits_complete :
    (b : Bitmap) (v : Bool) (n i : ℕ)
    → ((j : ℕ) → i ≤ j → j < i + n → b.bit j ≡ v)
    → all_bits b v n i ≡ true
unfolding all_bits
all_bits_complete b v zero i h = refl
all_bits_complete b v (suc n) i h =
    ground
      (arith, h i, all_bits_complete b v n (i + 1) (λ j low high. h j (omega arith) (omega arith)))

scan : Bitmap → Bool → ℕ → ℕ → ℕ → ℕ
scan b v n zero i = bitmap_failed
scan b v n (suc k) i = elim (leb (i + n) b.size && all_bits b v n i) [
  | true ↦ i
  | false ↦ scan b v n k (i + 1)
]

scan-HasRun :
    (b : Bitmap) (v : Bool) (n k i : ℕ)
    → scan b v n k i ≢ bitmap_failed
    → HasRun b v (scan b v n k i) n
unfolding scan
scan-HasRun b v n zero i h = absurd (h refl)
scan-HasRun b v n (suc k) i h = elim (Bool-cases (leb (i + n) b.size && all_bits b v n i)) [
  | inl here ↦
      rw (here, scan) (ground arith, λ j low high. all_bits_sound b v n i j (ground arith) low high)
  | inr later ↦ rw (later, scan) (scan-HasRun b v n k (i + 1) (rw (later, scan) at h))
]

scan_here : (b : Bitmap) (v : Bool) (n k i : ℕ) → HasRun b v i n → scan b v n (suc k) i ≡ i
unfolding scan
scan_here b v n k i h = ground (arith, all_bits_complete b v n i h.1, h.0)

clash : true ≡ false → ⊥
clash e = cc

run_passes :
    (b : Bitmap) (v : Bool) (n i j : ℕ)
    → HasRun b v j n
    → i ≡ j
    → (leb (i + n) b.size && all_bits b v n i) ≡ true
run_passes b v n i j h e = rw e (ground (arith, all_bits_complete b v n j h.1, h.0))

scan_complete :
    (b : Bitmap) (v : Bool) (n k i j : ℕ)
    → b.size < bitmap_failed
    → HasRun b v j n
    → i ≤ j
    → j < i + k
    → scan b v n k i ≢ bitmap_failed
unfolding scan
scan_complete b v n zero i j small h low high = absurd (omega arith)
scan_complete b v n (suc k) i j small h low high =
    elim (Bool-cases (leb (i + n) b.size && all_bits b v n i)) [
      | inl here ↦ rw (here, scan) (ground arith)
      | inr later ↦
          let ne : i ≢ j = λ e. clash (sym (run_passes b v n i j h e) ∙ later) in
          rw (later, scan)
            (scan_complete b v n k (i + 1) j small h (omega (arith, ne)) (omega arith))
    ]

pick_index : Bool → Bitmap → ℕ → ℕ → ℕ
pick_index v b n hint =
    let from_hint = scan b v n (suc b.size) hint in
    if from_hint == bitmap_failed then scan b v n (suc b.size) 0 else from_hint

unfoldable pub search_run : Bool → Bool → Bitmap → ℕ → ℕ → ℕ × Bitmap
unfolding pick_index scan all_bits
search_run v w b n hint =
    let index = pick_index v b n hint in
    (index, if index == bitmap_failed then b else write_run b index n w)

abbrev pub first_fit : Rtl
first_fit = record {
  find_clear_bits_and_set = search_run false true;
  find_set_bits_and_clear = search_run true false;
}

pick_index-HasRun :
    (v : Bool) (b : Bitmap) (n hint : ℕ)
    → pick_index v b n hint ≢ bitmap_failed
    → HasRun b v (pick_index v b n hint) n
unfolding pick_index
pick_index-HasRun v b n hint h = elim (Bool-cases (scan b v n (suc b.size) hint == bitmap_failed)) [
  | inl again ↦ rw again (scan-HasRun b v n (suc b.size) 0 (rw again at h))
  | inr done ↦ rw done (scan-HasRun b v n (suc b.size) hint (rw done at h))
]

search_run-Searches : (v w : Bool) → Searches (search_run v w) v w
unfolding search_run pick_index
search_run-Searches v w = record {
  found = λ b n hint h.
      (pick_index-HasRun v b n hint h, rw (==_of_ne (pick_index v b n hint) bitmap_failed h) refl);
  failed = λ b n hint e. rw e refl;
  complete = λ b n hint index small run.
      ground (arith, scan_complete b v n (suc b.size) 0 index small run);
  from_hint = λ b n hint small run. ground (arith, scan_here b v n b.size hint run);
}

pub first_fit-RtlLaws : RtlLaws first_fit
first_fit-RtlLaws = record {
  clear_to_set = search_run-Searches false true;
  set_to_clear = search_run-Searches true false;
}
