-- ===== src/Lifecycle/Balance/Steps.antt =====
-- The callbacks of kernelmode/vgpu/vgpu.c keep the balance of what the driver takes and gives back.
use mathlib.Core.Path.{subst}
use mvisor_win_vgpu_driver.Common.{
  ℕ, ◌+◌, zero, suc, ◌≡◌, ◌≢◌, refl, Bool, true, false, ◌∷◌, ◌==◌, if◌then◌else◌, arith, ==_of_ne,
  Bool-cases, inl, inr,
}
use mvisor_win_vgpu_driver.Driver.{Driver, status_success, null}
use mvisor_win_vgpu_driver.Exec.{nt_success}
use mvisor_win_vgpu_driver.Device.{Hardware, prepare_hardware, create_locks, created_locks}
use mvisor_win_vgpu_driver.Lifecycle.{
  Object, queue_block, lock_block, capset_block, param_block, memory_block, bitmap_block,
  resource_ids, fence_ids, resource_list, buffer_list, notify_routine, device_library, queue_set,
  acquire, release, set_driver_ok, Objects, zeroed_objects, act, started, prepare_objects,
  release_objects, Power, queue_params, d0_entry, d0_exit,
}
use mvisor_win_vgpu_driver.Lifecycle.Balance.{
  held, IsSound, Phase, added, prepared, working, Step, start, power_up, power_failed, power_down,
  stop, Reach, plugged, next, expected, Fits, queues_of, queues_started,
}

prepare_hardware-started :
    (h : Hardware) (d : Driver) (o : Objects)
    → (prepare_hardware h d).0 ≡ status_success
    → (prepare_objects h o ≡ started h o) × (h.memory_address ≢ null)
unfolding prepare_hardware prepare_objects
prepare_hardware-started h d o e = ground arith

started-holds :
    (h : Hardware) (o : Objects)
    → ((x : Object) → held x o.actions ≡ 0)
    → h.bitmap_buffer ≡ true
    → (x : Object) → held x (started h o).actions ≡ expected prepared x
started-holds h o f buffer queue_block = rw buffer (omega (arith, f queue_block))
started-holds h o f buffer x = rw buffer (omega (arith, f x))

started-Fits :
    (h : Hardware) (o : Objects)
    → h.memory_address ≢ null
    → h.bitmap_buffer ≡ true
    → Fits added o
    → Fits prepared (started h o)
started-Fits h o there buffer v = record {
  queues = rw buffer refl;
  locks = rw buffer refl;
  capsets = rw buffer refl;
  memory = rw buffer (λ e. there);
  sound = ground (
    arith,
    buffer,
    v.holds bitmap_block,
    v.holds resource_ids,
    v.holds fence_ids,
    v.sound,
    v.holds buffer_list,
    v.holds resource_list,
    v.holds notify_routine,
    v.holds memory_block,
    v.holds capset_block,
    v.holds lock_block,
    v.holds queue_block,
    v.holds device_library,
  );
  holds = started-holds h o v.holds buffer;
}

abbrev stopped : Objects → Objects
stopped o = record o {
  virt_queues = false;
  virt_queue_locks = false;
  capset_data = false;
  actions =
      release device_library
      ∷ release notify_routine
      ∷ release buffer_list
      ∷ release resource_list
      ∷ release fence_ids
      ∷ release resource_ids
      ∷ release memory_block
      ∷ release bitmap_block
      ∷ release capset_block
      ∷ release lock_block
      ∷ release queue_block
      ∷ o.actions;
}

release_objects-stopped : (o : Objects) → Fits prepared o → release_objects o ≡ stopped o
unfolding release_objects
release_objects-stopped o v =
    rw (v.queues, v.locks, v.capsets, ==_of_ne _ null (v.memory refl)) refl

stopped-holds :
    (o : Objects)
    → ((x : Object) → held x o.actions ≡ expected prepared x)
    → (x : Object) → held x (stopped o).actions ≡ 0
stopped-holds o f queue_block = omega (arith, f queue_block)
stopped-holds o f x = omega (arith, f x)

stopped-Fits : (o : Objects) → Fits prepared o → Fits added (stopped o)
stopped-Fits o v = record {
  queues = refl;
  locks = refl;
  capsets = refl;
  memory = λ e. cc;
  sound = ground (
    arith,
    v.sound,
    v.holds bitmap_block,
    v.holds resource_ids,
    v.holds fence_ids,
    v.holds device_library,
    v.holds notify_routine,
    v.holds buffer_list,
    v.holds resource_list,
    v.holds memory_block,
    v.holds capset_block,
    v.holds lock_block,
    v.holds queue_block,
  );
  holds = stopped-holds o v.holds;
}

-- Entering D0, whether the queues start or not.
abbrev powered : Bool → Objects → Objects
powered up o = act (release param_block) (
    if up
    then act set_driver_ok (act (acquire queue_set) (act (acquire param_block) o))
    else act (acquire param_block) o)

abbrev power_phase : Bool → Phase
power_phase up = if up then working else prepared

powered-holds :
    (up : Bool) (o : Objects)
    → ((x : Object) → held x o.actions ≡ expected prepared x)
    → (x : Object) → held x (powered up o).actions ≡ expected (power_phase up) x
powered-holds true o f queue_block = omega (arith, f queue_block)
powered-holds true o f x = omega (arith, f x)
powered-holds false o f queue_block = omega (arith, f queue_block)
powered-holds false o f x = omega (arith, f x)

powered-Fits : (up : Bool) (o : Objects) → Fits prepared o → Fits (power_phase up) (powered up o)
powered-Fits true o v = record {
  queues = v.queues;
  locks = v.locks;
  capsets = v.capsets;
  memory = v.memory;
  sound = ground (arith, v.sound, v.holds param_block, v.holds queue_set);
  holds = powered-holds true o v.holds;
}
powered-Fits false o v = record {
  queues = v.queues;
  locks = v.locks;
  capsets = v.capsets;
  memory = v.memory;
  sound = ground (arith, v.sound, v.holds param_block);
  holds = powered-holds false o v.holds;
}

-- Entering D0 either starts the queues, or fails and leaves nothing behind.
d0_entry-Fits :
    (p : Power) (d : Driver) (o : Objects)
    → Fits prepared o
    → Fits (power_phase (nt_success (d0_entry p d o).0)) (d0_entry p d o).1
unfolding d0_entry
d0_entry-Fits p d o v =
    let status = p.init_queues (queue_params d.num_virt_queues) in
    elim (Bool-cases (d.num_virt_queues == 0)) [
      | inl none_there ↦ rw none_there v
      | inr some_there ↦ elim (Bool-cases p.pool) [
        | inr empty ↦ rw (some_there, empty) v
        | inl room ↦ rw (some_there, room) (powered-Fits (nt_success status) o v)
      ]
    ]

d0_exit-holds :
    (o : Objects)
    → ((x : Object) → held x o.actions ≡ expected working x)
    → (x : Object) → held x (d0_exit o).1.actions ≡ expected prepared x
unfolding d0_exit
d0_exit-holds o f queue_block = omega (arith, f queue_block)
d0_exit-holds o f x = omega (arith, f x)

d0_exit-Fits : (o : Objects) → Fits working o → Fits prepared (d0_exit o).1
unfolding d0_exit
d0_exit-Fits o v = record {
  queues = v.queues;
  locks = v.locks;
  capsets = v.capsets;
  memory = v.memory;
  sound = ground (arith, v.sound, v.holds queue_set);
  holds = d0_exit-holds o v.holds;
}

Step-Fits : {p q : Phase} {o o' : Objects} → Step o o' p q → Fits p o → Fits q o'
Step-Fits {o} (start h d done buffer e) v =
    let (same, there) = prepare_hardware-started h d o done in
    rw (e, same) (started-Fits h o there buffer v)
Step-Fits {o} {o'} (power_up p d done e) v =
    subst (λ b. Fits (power_phase b) o') done (rw e (d0_entry-Fits p d o v))
Step-Fits {o} {o'} (power_failed p d failed e) v =
    subst (λ b. Fits (power_phase b) o') failed (rw e (d0_entry-Fits p d o v))
Step-Fits {o} (power_down e) v = rw e (d0_exit-Fits o v)
Step-Fits {o} (stop e) v = rw (e, release_objects-stopped o v) (stopped-Fits o v)

zeroed-Fits : Fits added zeroed_objects
zeroed-Fits = record {
  queues = refl;
  locks = refl;
  capsets = refl;
  memory = λ e. cc;
  sound = tt;
  holds = λ x. refl;
}

Reach-Fits : {p : Phase} {o : Objects} → Reach p o → Fits p o
Reach-Fits plugged = zeroed-Fits
Reach-Fits (next r s) = Step-Fits s (Reach-Fits r)

created_all :
    (status : ℕ → ℕ) (n : ℕ)
    → nt_success (create_locks status n) ≡ true
    → created_locks status n ≡ n
created_all status zero e = refl
created_all status (suc n) e = ground (arith, created_all status n)

locks_created :
    (h : Hardware) (d : Driver)
    → (prepare_hardware h d).0 ≡ status_success
    → nt_success (create_locks h.lock_status h.num_queues) ≡ true
unfolding prepare_hardware
locks_created h d e = ground arith

Step-spin_locks :
    {p q : Phase} {o o' : Objects} (s : Step o o' p q)
    → Fits p o
    → o'.spin_locks ≡ o.spin_locks + queues_of s
unfolding d0_entry d0_exit
Step-spin_locks {o} (start h d done buffer e) v =
    let (same, there) = prepare_hardware-started h d o done in
    rw (e, same, created_all h.lock_status h.num_queues (locks_created h d done)) refl
Step-spin_locks (power_up p d done e) v = rw e (ground arith)
Step-spin_locks (power_failed p d failed e) v = rw e (ground arith)
Step-spin_locks (power_down e) v = rw e (omega arith)
Step-spin_locks {o} (stop e) v = rw (e, release_objects-stopped o v) (omega arith)

Reach-spin_locks : {p : Phase} {o : Objects} (r : Reach p o) → o.spin_locks ≡ queues_started r
Reach-spin_locks plugged = refl
Reach-spin_locks (next r s) = omega (arith, Reach-spin_locks r, Step-spin_locks s (Reach-Fits r))

-- However often the device is started with a buffer for its bitmap, powered up and down, and
-- stopped, with entries of D0 that fail among them, no block, memory, lookaside list, registration,
-- library state or set of queues is taken while it is held or given back while it is not, the device
-- is told that the driver is ready only while its queues stand, and whenever it is stopped none is
-- held; but each start adds a spin lock for each queue, and no stop takes one away.
pub lifecycle_balanced :
    {p : Phase} {o : Objects} (r : Reach p o)
    → IsSound o.actions
      × ((x : Object) → held x o.actions ≡ expected p x)
      × (o.spin_locks ≡ queues_started r)
lifecycle_balanced r = let v = Reach-Fits r in (v.sound, v.holds, Reach-spin_locks r)
