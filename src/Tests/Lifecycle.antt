-- ===== src/Tests/Lifecycle.antt =====
-- A device that is added, started, powered up and down, and stopped.
use mvisor_win_vgpu_driver.Common.{ℕ, ◌≡◌, ◌↔◌, refl, true, false, [], ◌∷◌, ◌==◌, if◌then◌else◌}
use mvisor_win_vgpu_driver.Driver.{Driver, status_success, status_unsuccessful}
use mvisor_win_vgpu_driver.Exec.{nt_success}
use mvisor_win_vgpu_driver.Device.{Hardware, prepare_hardware}
use mvisor_win_vgpu_driver.Lifecycle.{
  Object, Objects, zeroed_objects, prepare_objects, release_objects, Power, d0_entry, d0_exit,
  status_invalid_parameter,
}
use mvisor_win_vgpu_driver.Lifecycle.Entry.{
  Framework, create_interrupts, device_add, io_stop, status_cancelled,
}
use mvisor_win_vgpu_driver.Lifecycle.Balance.{
  held, IsSound, Reach, plugged, next, start, power_up, power_failed, power_down, stop, expected,
  added, queues_started,
}
use mvisor_win_vgpu_driver.Lifecycle.Balance.Steps.{lifecycle_balanced}
use mvisor_win_vgpu_driver.Lifecycle.Failure.{release_after_failure}
use mvisor_win_vgpu_driver.Lifecycle.Registration.{Answers, device_add_lem}
use mvisor_win_vgpu_driver.Tests.Machine.{hardware, loaded}

abbrev power : Power
power = record { pool = true; init_queues = λ l. status_success }

abbrev no_pool : Power
no_pool = record { pool = false; init_queues = λ l. status_success }

abbrev ready : Driver
ready = (prepare_hardware hardware loaded).1

abbrev prepared_objects : Objects
prepared_objects = prepare_objects hardware zeroed_objects

abbrev powered : Objects
powered = (d0_entry power ready prepared_objects).1

abbrev stopped : Objects
stopped = release_objects (d0_exit powered).1

stopped-Reach : Reach added stopped
unfolding prepare_hardware d0_entry
stopped-Reach =
    next
      (next
        (next
          (next (next plugged (start hardware loaded refl refl refl))
            (power_failed no_pool ready refl refl))
          (power_up power ready refl refl))
        (power_down refl))
      (stop refl)

lifecycle_balanced_example :
    IsSound stopped.actions
    × ((x : Object) → held x stopped.actions ≡ expected added x)
    × (stopped.spin_locks ≡ queues_started stopped-Reach)
lifecycle_balanced_example = lifecycle_balanced stopped-Reach

-- Without queues there is nothing to power up.
d0_entry_no_queues :
    d0_entry power loaded zeroed_objects ≡ (status_invalid_parameter, zeroed_objects)
unfolding d0_entry
d0_entry_no_queues = refl

abbrev no_device : Hardware
no_device = record hardware { init_status = status_unsuccessful }

no_device_fails : nt_success (prepare_hardware no_device loaded).0 ≡ false
unfolding prepare_hardware
no_device_fails = refl

release_after_failure_example :
    ¬ IsSound (release_objects (prepare_objects no_device zeroed_objects)).actions
release_after_failure_example =
    release_after_failure no_device loaded zeroed_objects refl no_device_fails

abbrev answering : Framework
answering = record {
  driver_create = status_success;
  device_create = status_success;
  device_create_interface = status_success;
  interrupt_create = λ i. status_success;
  io_queue_create = status_success;
  configure_dispatching = status_success;
}

device_add_example :
    ((nt_success (device_add answering).0 ≡ true) ↔ Answers answering)
    × (Answers answering ↔ (
        ((device_add answering).1.dispatching ≡ true) × ((device_add answering).1.interrupts ≡ 4)))
    × ((device_add answering).1.device ≡ true)
    × ((status : ℕ)
        → (device_add (record answering { device_create = status })).0 ≡ (device_add answering).0)
device_add_example = device_add_lem answering

-- The third interrupt fails: the device is not added, and the first two stay.
abbrev two_interrupts : Framework
two_interrupts = record answering {
  interrupt_create = λ i. if i == 2 then status_unsuccessful else status_success;
}

two_interrupts_kept : (device_add two_interrupts).1.interrupts ≡ 2
unfolding device_add create_interrupts
two_interrupts_kept = refl

-- A request that is being cancelled is left to its cancellation.
io_stop_cancelling : io_stop 0x1000_0001 status_cancelled ≡ []
unfolding io_stop
io_stop_cancelling = refl

io_stop_purged : io_stop 2 status_success ≡ status_cancelled ∷ []
unfolding io_stop
io_stop_purged = refl
