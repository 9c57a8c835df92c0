-- ===== src/Lifecycle/Failure.antt =====
-- `VirtioVgpuDeviceReleaseHardware` of kernelmode/vgpu/vgpu.c after a failure of
-- `VirtioVgpuDevicePrepareHardware`, when the framework calls it too.
use mvisor_win_vgpu_driver.Common.{◌<◌, ◌≡◌, false, arith}
use mvisor_win_vgpu_driver.Driver.{Driver}
use mvisor_win_vgpu_driver.Exec.{nt_success}
use mvisor_win_vgpu_driver.Device.{Hardware, prepare_hardware}
use mvisor_win_vgpu_driver.Lifecycle.{resource_list, Objects, prepare_objects, release_objects}
use mvisor_win_vgpu_driver.Lifecycle.Balance.{held, IsSound}

-- No failing branch has initialised the lookaside lists.
failed_lists :
    (h : Hardware) (d : Driver) (o : Objects)
    → nt_success (prepare_hardware h d).0 ≡ false
    → held resource_list (prepare_objects h o).actions ≡ held resource_list o.actions
unfolding prepare_hardware prepare_objects
failed_lists h d o failed = ground arith

release-lists :
    (o : Objects) → IsSound (release_objects o).actions → 0 < held resource_list o.actions
unfolding release_objects
release-lists o s = ground arith

-- After a failure to prepare the hardware of a device that holds no lookaside list, releasing the
-- hardware gives back what is not held.
pub release_after_failure :
    (h : Hardware) (d : Driver) (o : Objects)
    → held resource_list o.actions ≡ 0
    → nt_success (prepare_hardware h d).0 ≡ false
    → ¬ IsSound (release_objects (prepare_objects h o)).actions
release_after_failure h d o none_there failed s =
    absurd (omega (arith, failed_lists h d o failed, release-lists (prepare_objects h o) s))
