-- ===== src/Lifecycle/Entry.antt =====
-- kernelmode/vgpu/vgpu.c: registering the driver and the device with the framework, and stopping a
-- request.
use mvisor_win_vgpu_driver.Common.{
  ℕ, zero, suc, ◌+◌, Bool, true, false, not, ◌||◌, List, [], ◌∷◌, ◌==◌, bit_and, if◌then◌else◌,
}
use mvisor_win_vgpu_driver.Driver.{status_success, status_unsuccessful}
use mvisor_win_vgpu_driver.Exec.{nt_success}
use mvisor_win_vgpu_driver.Lifecycle.{Objects, zeroed_objects}

-- The statuses that the framework's calls give.
pub record Framework : Type 0 where
  pub driver_create : ℕ
  pub device_create : ℕ
  pub device_create_interface : ℕ
  pub interrupt_create : ℕ → ℕ
  pub io_queue_create : ℕ
  pub configure_dispatching : ℕ

-- `MAX_INTERRUPT_COUNT`
abbrev pub max_interrupt_count : ℕ
max_interrupt_count = 4

-- The loop over the interrupts, from `i` on with `n` to go: how many are created, and the status.
unfoldable pub create_interrupts : Framework → ℕ → ℕ → ℕ × ℕ
create_interrupts f zero i = (i, status_success)
create_interrupts f (suc n) i =
    let rest = create_interrupts f n (i + 1) in
    if nt_success (f.interrupt_create i) then rest else (i, f.interrupt_create i)

-- What `VirtioVgpuDeviceAdd` sets up: the device, the objects of the zeroed context, the interface, the
-- interrupts, the queue, and whether control requests are dispatched to it.
pub record Registration : Type 0 where
  pub device : Bool
  pub objects : Objects
  pub interface : Bool
  pub interrupts : ℕ
  pub io_queue : Bool
  pub dispatching : Bool

abbrev pub no_registration : Bool → Registration
no_registration created = record {
  device = created;
  objects = zeroed_objects;
  interface = false;
  interrupts = 0;
  io_queue = false;
  dispatching = false;
}

-- From the creation of the queue on.
abbrev add_queue : Framework → Registration → ℕ × Registration
add_queue f r =
    let queued = record r { io_queue = true } in
    if nt_success f.io_queue_create
    then if nt_success f.configure_dispatching
      then (status_success, record queued { dispatching = true })
      else (status_unsuccessful, queued)
    else (status_unsuccessful, r)

-- `VirtioVgpuDeviceAdd`. The status of `WdfDeviceCreate` is asserted in checked builds, and then
-- overwritten: the function goes on with what it takes for the device.
unfoldable pub device_add : Framework → ℕ × Registration
device_add f =
    let (n, status) = create_interrupts f max_interrupt_count 0 in
    let bare = no_registration (nt_success f.device_create) in
    let created = record bare { interface = true; interrupts = n } in
    if nt_success f.device_create_interface
    then if nt_success status then add_queue f created else (status, created)
    else (status_unsuccessful, bare)

-- `DriverEntry`
unfoldable pub driver_entry : Framework → ℕ
driver_entry f = f.driver_create

-- `WdfRequestStopActionSuspend`, `WdfRequestStopActionPurge`, `WdfRequestStopRequestCancelable` and
-- STATUS_CANCELLED.
abbrev pub stop_action_suspend : ℕ
stop_action_suspend = 1

abbrev pub stop_action_purge : ℕ
stop_action_purge = 2

abbrev pub stop_request_cancelable : ℕ
stop_request_cancelable = 0x1000_0000

abbrev pub status_cancelled : ℕ
status_cancelled = 0xc000_0120

-- `if (!bCancellable || WdfRequestUnmarkCancelable(Request) != STATUS_CANCELLED)`: the statuses with
-- which the request is completed.
abbrev complete_unless_cancelled : Bool → ℕ → List ℕ
complete_unless_cancelled cancellable unmarked =
    if not cancellable || not (unmarked == status_cancelled) then status_cancelled ∷ [] else []

-- `VirtioVgpuIoStop`, with what `WdfRequestUnmarkCancelable` answers.
unfoldable pub io_stop : ℕ → ℕ → List ℕ
io_stop flags unmarked =
    let cancellable = not (bit_and flags stop_request_cancelable == 0) in
    if not (bit_and flags stop_action_suspend == 0)
    then complete_unless_cancelled cancellable unmarked
    else if not (bit_and flags stop_action_purge == 0)
    then complete_unless_cancelled cancellable unmarked
    else []
