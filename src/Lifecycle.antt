-- ===== src/Lifecycle.antt =====
-- kernelmode/vgpu/vgpu.c: what the driver takes from the kernel and the virtio library while its
-- device starts and stops, and when it gives it back.

pub mod Entry
pub mod Registration
pub mod Balance
pub mod Failure
use mvisor_win_vgpu_driver.Common.{
  ℕ, zero, suc, ◌+◌, ◌-◌, ◌≤◌, ◌<◌, ◌≡◌, Bool, true, false, not, List, [], ◌∷◌, ◌++◌, ◌==◌,
  if◌then◌else◌,
}
use mvisor_win_vgpu_driver.Driver.{
  Driver, status_success, status_unsuccessful, status_insufficient_resources, null,
}
use mvisor_win_vgpu_driver.Exec.{nt_success}
use mvisor_win_vgpu_driver.Device.{Hardware, create_locks, created_locks}

abbrev pub status_invalid_parameter : ℕ
status_invalid_parameter = 0xc000_000d

-- What is taken: the blocks at `VirtQueues`, `VirtQueueLocks`, `Capsets.Data`, `params` and
-- `RegionBitmapBuffer`, the contiguous memory, the lookaside lists of the device and of the two
-- identifier pools, the registration of `ProcessNotify`, the state of the virtio library for the
-- device, and its queues.
pub data Object : Type 0 where
  queue_block lock_block capset_block param_block memory_block bitmap_block : Object
  resource_ids fence_ids resource_list buffer_list : Object
  notify_routine device_library queue_set : Object

-- A call that takes an object, one that gives it back, and `VirtIOWdfSetDriverOK`.
pub data Action : Type 0 where
  acquire : Object → Action
  release : Object → Action
  set_driver_ok : Action

-- The pointers that the code tests, the calls so far, the latest first, and how many spin locks were
-- created with the device as their parent: nothing but the end of the device deletes them.
pub record Objects : Type 0 where
  pub virt_queues : Bool
  pub virt_queue_locks : Bool
  pub capset_data : Bool
  pub vgpu_memory_address : ℕ
  pub actions : List Action
  pub spin_locks : ℕ

-- `RtlZeroMemory` of the device context.
abbrev pub zeroed_objects : Objects
zeroed_objects = record {
  virt_queues = false;
  virt_queue_locks = false;
  capset_data = false;
  vgpu_memory_address = null;
  actions = [];
  spin_locks = 0;
}

abbrev pub act : Action → Objects → Objects
act a o = record o { actions = a ∷ o.actions }

-- `if (pointer) { free; pointer = NULL; }`
abbrev release_if : Bool → Object → Objects → Objects
release_if held x o = if held then act (release x) o else o

-- `UninitializeVgpuMemory`, and the contiguous memory after it.
abbrev release_memory : Bool → Objects → Objects
release_memory held o =
    if held then act (release memory_block) (act (release bitmap_block) o) else o

-- Up to the allocation of the contiguous memory.
abbrev allocate_blocks : Objects → Objects
allocate_blocks o =
    record (act (acquire capset_block)
      (act (acquire lock_block) (act (acquire queue_block) (act (acquire device_library) o)))) {
        virt_queues = true;
        virt_queue_locks = true;
        capset_data = true;
      }

-- From the allocation of the contiguous memory to the creation of the locks. That the buffer of the
-- bitmap was not found is not reported.
abbrev pub with_locks : Hardware → Objects → Objects
with_locks h o =
    let with_memory =
      act (acquire memory_block)
        (record (allocate_blocks o) { vgpu_memory_address = h.memory_address }) in
    let with_bitmap =
      if h.bitmap_buffer then act (acquire bitmap_block) with_memory else with_memory in
    record with_bitmap { spin_locks = o.spin_locks + created_locks h.lock_status h.num_queues }

-- From `PsSetCreateProcessNotifyRoutine` on.
abbrev register : Objects → Objects
register o = act (acquire buffer_list) (
    act (acquire resource_list)
      (act (acquire fence_ids) (act (acquire resource_ids) (act (acquire notify_routine) o))))

-- The whole of `VirtioVgpuDevicePrepareHardware`, where nothing fails.
abbrev pub started : Hardware → Objects → Objects
started h o = register (with_locks h o)

-- `VirtioVgpuDevicePrepareHardware`, with the branches of `prepare_hardware`.
unfoldable pub prepare_objects : Hardware → Objects → Objects
prepare_objects h o =
    if nt_success h.init_status
    then if h.memory_address == null
      then record (allocate_blocks o) { vgpu_memory_address = h.memory_address }
      else if nt_success (create_locks h.lock_status h.num_queues)
      then started h o
      else with_locks h o
    else o

-- The conditional part of `VirtioVgpuDeviceReleaseHardware`. The address of the memory is kept.
abbrev release_blocks : Objects → Objects
release_blocks o =
    release_memory (not (o.vgpu_memory_address == null))
      (record (release_if o.capset_data capset_block
        (release_if o.virt_queue_locks lock_block (release_if o.virt_queues queue_block o))) {
          virt_queues = false;
          virt_queue_locks = false;
          capset_data = false;
        })

-- `VirtioVgpuDeviceReleaseHardware`
unfoldable pub release_objects : Objects → Objects
release_objects o = act (release device_library) (
    act (release notify_routine) (
      act (release buffer_list) (
        act (release resource_list)
          (act (release fence_ids) (act (release resource_ids) (release_blocks o))))))

-- The answers to `ExAllocatePool2` and, for a list of interrupts, to `VirtIOWdfInitQueues`.
pub record Power : Type 0 where
  pub pool : Bool
  pub init_queues : List ℕ → ℕ

-- `params[i].Interrupt = context->WdfInterrupt[i]`: the indices of the interrupts.
abbrev pub queue_params : ℕ → List ℕ
queue_params zero = []
queue_params (suc n) = queue_params n ++ n ∷ []

-- What `VirtIOWdfInitQueues` and the branch on its status leave.
abbrev start_queues : ℕ → Objects → Objects
start_queues status o =
    if nt_success status then act set_driver_ok (act (acquire queue_set) o) else o

-- `VirtioVgpuDeviceD0Entry`
unfoldable pub d0_entry : Power → Driver → Objects → ℕ × Objects
d0_entry p d o =
    let status = p.init_queues (queue_params d.num_virt_queues) in
    if d.num_virt_queues == 0
    then (status_invalid_parameter, o)
    else if p.pool
    then (status, act (release param_block) (start_queues status (act (acquire param_block) o)))
    else (status_insufficient_resources, o)

-- `VirtioVgpuDeviceD0Exit`
unfoldable pub d0_exit : Objects → ℕ × Objects
d0_exit o = (status_success, act (release queue_set) o)
