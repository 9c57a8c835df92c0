-- ===== src/Device.antt =====
-- kernelmode/vgpu/vgpu.c: bringing the device up and down, and the end of a process.
use mvisor_win_vgpu_driver.Common.{
  ℕ, zero, suc, ◌+◌, Bool, false, ◌&&◌, Option, none, some, List, [], ◌∷◌, ◌==◌, if◌then◌else◌,
}
use mvisor_win_vgpu_driver.Idr.{initialize_idr, uninitialize_idr}
use mvisor_win_vgpu_driver.Memory.{initialize_vgpu_memory, uninitialize_vgpu_memory}
use mvisor_win_vgpu_driver.Driver.{
  Driver, Context, DrvCapset, status_success, status_unsuccessful, null,
}
use mvisor_win_vgpu_driver.Os.{Os}
use mvisor_win_vgpu_driver.Exec.{nt_success}
use mvisor_win_vgpu_driver.Lookup.{get_virgl_context_from_list}
use mvisor_win_vgpu_driver.Control.Contexts.{ctl_destroy_virgl_context}
use mvisor_win_vgpu_driver.Control.Params.{no_capset}

abbrev pub destroy_if_found : Os → Option Context → Driver → Driver
destroy_if_found os none d = d
destroy_if_found os (some c) d = (ctl_destroy_virgl_context os c d).1

-- `ProcessNotify`: a process that ends takes its context with it.
unfoldable pub process_notify : Os → ℕ → Bool → Driver → Driver
process_notify os process create d =
    if create then d else destroy_if_found os (get_virgl_context_from_list process d) d

-- What the framework and the device answer while the hardware is prepared: the status of
-- `VirtIOWdfInitialize`, the configuration space, the address and the physical address of the
-- contiguous memory, whether the bitmap's buffer was found, and the status of each spin lock.
pub record Hardware : Type 0 where
  pub init_status : ℕ
  pub num_queues : ℕ
  pub capabilities : ℕ
  pub memory_size : ℕ
  pub num_capsets : ℕ
  pub memory_address : ℕ
  pub memory_physical : ℕ
  pub bitmap_buffer : Bool
  pub lock_status : ℕ → ℕ

abbrev zeroed_capsets : ℕ → List DrvCapset
zeroed_capsets zero = []
zeroed_capsets (suc n) = no_capset ∷ zeroed_capsets n

-- The status of the loop that creates the locks: that of the first failure.
abbrev pub create_locks : (ℕ → ℕ) → ℕ → ℕ
create_locks status zero = status_success
create_locks status (suc n) =
    let before = create_locks status n in if nt_success before then status n else before

-- How many locks the loop creates, up to the first failure.
abbrev pub created_locks : (ℕ → ℕ) → ℕ → ℕ
created_locks status zero = 0
created_locks status (suc n) =
    let before = created_locks status n in
    if nt_success (create_locks status n) && nt_success (status n) then before + 1 else before

abbrev pub read_config : Hardware → Driver → Driver
read_config h d = record d {
  num_virt_queues = h.num_queues;
  capabilities = h.capabilities;
  capsets = record (d.capsets) {
    initialized = false;
    num_caps = h.num_capsets;
    entries = zeroed_capsets h.num_capsets;
  };
}

abbrev pub set_up_memory : Hardware → Driver → Driver
set_up_memory h d = record d {
  memory =
      initialize_vgpu_memory h.bitmap_buffer h.memory_address h.memory_physical h.memory_size
        d.memory;
}

-- `VirtioVgpuDevicePrepareHardware`
unfoldable pub prepare_hardware : Hardware → Driver → ℕ × Driver
prepare_hardware h d =
    let configured = read_config h d in
    let with_memory = set_up_memory h configured in
    let locks = create_locks h.lock_status h.num_queues in
    if nt_success h.init_status
    then if h.memory_address == null
      then (status_unsuccessful, configured)
      else if nt_success locks
      then (status_success, record with_memory { contexts = []; idrs = initialize_idr })
      else (locks, with_memory)
    else (h.init_status, d)

-- `VirtioVgpuDeviceReleaseHardware`; the address is that of the contiguous memory.
unfoldable pub release_hardware : ℕ → Driver → ℕ × Driver
release_hardware memory_address d = (
  status_success,
  record d {
    capsets = record (d.capsets) { entries = [] };
    memory = if memory_address == null then d.memory else uninitialize_vgpu_memory d.memory;
    idrs = uninitialize_idr d.idrs;
  },
)
