-- ===== src/Interrupt/Line.antt =====
-- kernelmode/vgpu/vgpu.c: the interrupt service routine, and enabling and disabling interrupts.
use mvisor_win_vgpu_driver.Common.{ℕ, zero, suc, Bool, ◌||◌, Option, none, some, ltb, if◌then◌else◌}
use mvisor_win_vgpu_driver.Driver.{Driver, Effect}
use mvisor_win_vgpu_driver.Command.Push.{log_effect}

-- `VirtioVgpuInterruptIsr`: whether the deferred routine is queued, which is what it returns.
unfoldable pub interrupt_isr : Bool → Bool → Bool
interrupt_isr message_signaled isr_status = message_signaled || isr_status

abbrev enable : ℕ → Driver → Driver
enable n d = log_effect (Effect.kick n) (log_effect (Effect.enable_cb n) d)

abbrev enable_below : ℕ → Driver → Driver
enable_below zero d = d
enable_below (suc n) d = enable n (enable_below n d)

-- `VirtioVgpuInterruptEnable`
unfoldable pub interrupt_enable : Option ℕ → Driver → Driver
interrupt_enable none d = enable_below d.num_virt_queues d
interrupt_enable (some n) d = if ltb n d.num_virt_queues then enable n d else d

abbrev disable_below : ℕ → Driver → Driver
disable_below zero d = d
disable_below (suc n) d = log_effect (Effect.disable_cb n) (disable_below n d)

-- `VirtioVgpuInterruptDisable`
unfoldable pub interrupt_disable : Option ℕ → Driver → Driver
interrupt_disable none d = disable_below d.num_virt_queues d
interrupt_disable (some n) d =
    if ltb n d.num_virt_queues then log_effect (Effect.disable_cb n) d else d
