-- ===== src/Lifecycle/Balance.antt =====
-- Starting and stopping the device, in kernelmode/vgpu/vgpu.c, as the framework does it: what is
-- taken is given back, once.

pub mod Steps
use mvisor_win_vgpu_driver.Common.{
  ℕ, zero, suc, ◌+◌, ◌-◌, ◌≤◌, ◌<◌, ◌≡◌, ◌≢◌, refl, Bool, true, false, not, List, [], ◌∷◌, ◌==◌,
  if◌then◌else◌, arith, ==→ne, Bool-cases, inl, inr,
}
use mvisor_win_vgpu_driver.Driver.{Driver, status_success, null}
use mvisor_win_vgpu_driver.Exec.{nt_success}
use mvisor_win_vgpu_driver.Device.{Hardware, prepare_hardware, create_locks}
use mvisor_win_vgpu_driver.Lifecycle.{
  Object, queue_block, lock_block, capset_block, param_block, memory_block, bitmap_block,
  resource_ids, fence_ids, resource_list, buffer_list, notify_routine, device_library, queue_set,
  Action, acquire, release, set_driver_ok, Objects, zeroed_objects, act, prepare_objects,
  release_objects, Power, queue_params, d0_entry, d0_exit,
}

abbrev object_index : Object → ℕ
object_index queue_block = 0
object_index lock_block = 1
object_index capset_block = 2
object_index param_block = 3
object_index memory_block = 4
object_index resource_list = 5
object_index buffer_list = 6
object_index notify_routine = 7
object_index device_library = 8
object_index queue_set = 9
object_index bitmap_block = 10
object_index resource_ids = 11
object_index fence_ids = 12

abbrev one_if : Bool → ℕ
one_if b = if b then 1 else 0

-- How often an object is taken and not given back.
abbrev pub held : Object → List Action → ℕ
held x [] = 0
held x (acquire y ∷ l) = held x l + one_if (object_index x == object_index y)
held x (release y ∷ l) = held x l - one_if (object_index x == object_index y)
held x (set_driver_ok ∷ l) = held x l

-- Nothing is taken while it is held, nothing is given back that is not held, and the device is told
-- that the driver is ready only while its queues stand.
abbrev pub IsSound : List Action → Type 0
IsSound [] = Unit
IsSound (acquire x ∷ l) = (held x l ≡ 0) × IsSound l
IsSound (release x ∷ l) = (0 < held x l) × IsSound l
IsSound (set_driver_ok ∷ l) = (0 < held queue_set l) × IsSound l

-- The states of the device as the framework sees it.
pub data Phase : Type 0 where
  added prepared working : Phase

-- The callbacks in the order in which the framework calls them, for a device whose hardware is
-- prepared without a failure and with a buffer for the bitmap. Entering D0 may fail.
pub data Step (o o' : Objects) : Phase → Phase → Type 0 where
  start :
      (h : Hardware) (d : Driver)
      → (prepare_hardware h d).0 ≡ status_success
      → h.bitmap_buffer ≡ true
      → o' ≡ prepare_objects h o
      → Step o o' added prepared
  power_up :
      (p : Power) (d : Driver)
      → nt_success (d0_entry p d o).0 ≡ true
      → o' ≡ (d0_entry p d o).1
      → Step o o' prepared working
  power_failed :
      (p : Power) (d : Driver)
      → nt_success (d0_entry p d o).0 ≡ false
      → o' ≡ (d0_entry p d o).1
      → Step o o' prepared prepared
  power_down : o' ≡ (d0_exit o).1 → Step o o' working prepared
  stop : o' ≡ release_objects o → Step o o' prepared added

pub data Reach : Phase → Objects → Type 0 where
  plugged : Reach added zeroed_objects
  next : {p q : Phase} {o o' : Objects} → Reach p o → Step o o' p q → Reach q o'

-- How many queues the device had at each of its starts, in total.
abbrev pub queues_of : {p q : Phase} {o o' : Objects} → Step o o' p q → ℕ
queues_of (start h d done buffer e) = h.num_queues
queues_of (power_up p d done e) = 0
queues_of (power_failed p d failed e) = 0
queues_of (power_down e) = 0
queues_of (stop e) = 0

abbrev pub queues_started : {p : Phase} {o : Objects} → Reach p o → ℕ
queues_started plugged = 0
queues_started (next r s) = queues_started r + queues_of s

-- What is held in each phase.
abbrev pub expected : Phase → Object → ℕ
expected added x = 0
expected prepared param_block = 0
expected prepared queue_set = 0
expected prepared _ = 1
expected working param_block = 0
expected working _ = 1

abbrev pub is_up : Phase → Bool
is_up added = false
is_up prepared = true
is_up working = true

pub record Fits (p : Phase) (o : Objects) : Type 0 where
  pub queues : o.virt_queues ≡ is_up p
  pub locks : o.virt_queue_locks ≡ is_up p
  pub capsets : o.capset_data ≡ is_up p
  pub memory : is_up p ≡ true → o.vgpu_memory_address ≢ null
  pub sound : IsSound o.actions
  pub holds : (x : Object) → held x o.actions ≡ expected p x
