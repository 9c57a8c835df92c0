-- ===== src/Lifecycle/Registration.antt =====
-- `VirtioVgpuDeviceAdd` of kernelmode/vgpu/vgpu.c: when requests reach the device.
use mvisor_win_vgpu_driver.Common.{
  ℕ, zero, suc, ◌+◌, ◌<◌, ◌≤◌, ◌≡◌, ◌↔◌, refl, true, ◌==◌, arith, ==→eq, ◌∙◌, Bool-cases, inl, inr,
}
use mvisor_win_vgpu_driver.Driver.{status_success}
use mvisor_win_vgpu_driver.Exec.{nt_success}
use mvisor_win_vgpu_driver.Lifecycle.Entry.{
  Framework, create_interrupts, max_interrupt_count, device_add,
}

-- Every call of the framework whose status is tested succeeds.
abbrev pub Answers : Framework → Type 0
Answers f =
    (nt_success f.device_create_interface ≡ true)
    × ((i : ℕ) → i < max_interrupt_count → nt_success (f.interrupt_create i) ≡ true)
    × (nt_success f.io_queue_create ≡ true)
    × (nt_success f.configure_dispatching ≡ true)

create_interrupts_sound :
    (f : Framework) (n i : ℕ)
    → nt_success (create_interrupts f n i).1 ≡ true
    → (j : ℕ) → i ≤ j
    → j < i + n
    → nt_success (f.interrupt_create j) ≡ true
unfolding create_interrupts
create_interrupts_sound f zero i h j low high = absurd (omega arith)
create_interrupts_sound f (suc n) i h j low high =
    elim (Bool-cases (nt_success (f.interrupt_create i))) [
      | inl fine ↦ elim (Bool-cases (i == j)) [
        | inl here ↦ rw (← ==→eq i j here) fine
        | inr later ↦
            create_interrupts_sound f n (i + 1) (rw (fine, create_interrupts) at h) j (ground arith)
              (omega arith)
      ]
      | inr failed ↦ let h' = rw (failed, create_interrupts) at h in cc
    ]

create_interrupts_complete :
    (f : Framework) (n i : ℕ)
    → ((j : ℕ) → i ≤ j → j < i + n → nt_success (f.interrupt_create j) ≡ true)
    → create_interrupts f n i ≡ (i + n, status_success)
unfolding create_interrupts
create_interrupts_complete f zero i h = ground arith
create_interrupts_complete f (suc n) i h =
    rw (h i (omega arith) (omega arith), create_interrupts)
      (create_interrupts_complete f n (i + 1) (λ j low high. h j (omega arith) (omega arith))
        ∙ ground arith)

device_add-device : (f : Framework) → (device_add f).1.device ≡ nt_success f.device_create
unfolding device_add
device_add-device f = ground arith

create_interrupts_unchecked :
    (f : Framework) (status n i : ℕ)
    → create_interrupts (record f { device_create = status }) n i ≡ create_interrupts f n i
unfolding create_interrupts
create_interrupts_unchecked f status zero i = refl
create_interrupts_unchecked f status (suc n) i =
    rw (create_interrupts_unchecked f status n (i + 1)) refl

device_add_unchecked :
    (f : Framework) (status : ℕ)
    → (device_add (record f { device_create = status })).0 ≡ (device_add f).0
unfolding device_add
device_add_unchecked f status =
    rw (create_interrupts_unchecked f status max_interrupt_count 0) (ground arith)

-- What the branches of the function have tested.
abbrev Passed : Framework → Type 0
Passed f =
    (nt_success f.device_create_interface ≡ true)
    × (nt_success (create_interrupts f max_interrupt_count 0).1 ≡ true)
    × (nt_success f.io_queue_create ≡ true)
    × (nt_success f.configure_dispatching ≡ true)

device_add-Passed : (f : Framework) → nt_success (device_add f).0 ≡ true → Passed f
unfolding device_add
device_add-Passed f h = ground arith

dispatching-Passed : (f : Framework) → (device_add f).1.dispatching ≡ true → Passed f
unfolding device_add
dispatching-Passed f h = ground arith

Passed-Answers : (f : Framework) → Passed f → Answers f
Passed-Answers f p =
    let all = create_interrupts_sound f max_interrupt_count 0 p.1 in
    (p.0, λ i h. all i (omega arith) (omega arith), p.2, p.3)

device_add_complete :
    (f : Framework)
    → Answers f
    → (nt_success (device_add f).0 ≡ true)
      × ((device_add f).1.dispatching ≡ true)
      × ((device_add f).1.interrupts ≡ max_interrupt_count)
unfolding device_add
device_add_complete f a =
    let all =
      create_interrupts_complete f max_interrupt_count 0 (λ j low high. a.1 j (omega arith)) in
    rw (all, a.0, a.2, a.3) (refl, refl, refl)

-- The status of adding a device is a success exactly if every call of the framework but
-- `WdfDeviceCreate` succeeds, and then, and only then, control requests are dispatched to the device,
-- with all its interrupts created. What `WdfDeviceCreate` answers decides whether there is a device,
-- and makes no difference to the status.
pub device_add_lem :
    (f : Framework)
    → ((nt_success (device_add f).0 ≡ true) ↔ Answers f)
      × (Answers f ↔ (
          ((device_add f).1.dispatching ≡ true)
          × ((device_add f).1.interrupts ≡ max_interrupt_count)))
      × ((device_add f).1.device ≡ nt_success f.device_create)
      × ((status : ℕ) → (device_add (record f { device_create = status })).0 ≡ (device_add f).0)
device_add_lem f = (
  (λ h. Passed-Answers f (device_add-Passed f h), λ a. (device_add_complete f a).0),
  (
    λ a. ((device_add_complete f a).1, (device_add_complete f a).2),
    λ h. Passed-Answers f (dispatching-Passed f h.0),
  ),
  device_add-device f,
  λ status. device_add_unchecked f status,
)
