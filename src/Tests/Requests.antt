-- ===== src/Tests/Requests.antt =====
-- The handlers of kernelmode/vgpu/control.c and the dispatch of kernelmode/vgpu/vgpu.c at concrete
-- inputs.
use mvisor_win_vgpu_driver.Common.{
  ℕ, ◌+◌, ◌%◌, ◌≤◌, ◌<◌, ◌≡◌, ◌^◌, refl, false, none, List, [], ◌∷◌, arith,
}
use mvisor_win_vgpu_driver.Memory.{page_size}
use mvisor_win_vgpu_driver.Driver.{Driver, status_unsuccessful}
use mvisor_win_vgpu_driver.Request.{Output}
use mvisor_win_vgpu_driver.Abi.{ContextSetParam}
use mvisor_win_vgpu_driver.Interrupt.{interrupt_dpc}
use mvisor_win_vgpu_driver.Control.Contexts.{set_params}
use mvisor_win_vgpu_driver.Control.Resources.{backing_size, round_up}
use mvisor_win_vgpu_driver.Control.Negotiation.{set_params_lem}
use mvisor_win_vgpu_driver.Control.Rounding.{backing_size_covers, backing_size_wraps}
use mvisor_win_vgpu_driver.Ioctl.{ioctl_code, io_control, completed}
use mvisor_win_vgpu_driver.Device.{process_notify}
use mvisor_win_vgpu_driver.Isolation.NoContext.{io_control_no_context}
use mvisor_win_vgpu_driver.Isolation.Dispatch.{io_control-Spares}
use mvisor_win_vgpu_driver.Lookup.{get_virgl_context_from_list}
use mvisor_win_vgpu_driver.Ownership.Invariant.{Owned, nothing}
use mvisor_win_vgpu_driver.Ownership.Completion.{interrupt_dpc-Owned}
use mvisor_win_vgpu_driver.Ownership.Deletion.{process_notify-Owned}
use mvisor_win_vgpu_driver.Tests.FirstFit.{first_fit-RtlLaws}
use mvisor_win_vgpu_driver.Tests.Fences.{context}
use mvisor_win_vgpu_driver.Tests.Machine.{machine, loaded, create_request}
use mvisor_win_vgpu_driver.Tests.Histories.{returned_first, created_driver, created_driver-Owned}

abbrev with_context : Driver
with_context = record loaded { contexts = context ∷ [] }

abbrev params : List ContextSetParam
params =
    record { param = 1; value = 2 }
    ∷ record { param = 2; value = 1 }
    ∷ record { param = 1; value = 4 }
    ∷ []

-- The second parameter is not one that the driver knows.
set_params_example : set_params 0x14 params (0, 0) ≡ (status_unsuccessful, 6)
set_params_example = set_params_lem 0x14 0 0 params

backing_size_covers_example :
    (5000 ≤ backing_size 5000)
    × (backing_size 5000 % page_size ≡ 0)
    × (page_size ≤ backing_size 5000)
    × (backing_size 5000 ≤ 5000 + page_size)
backing_size_covers_example = backing_size_covers 5000 (omega arith)

backing_size_wraps_example :
    (backing_size 0xffff_f001 ≡ 0) × (round_up 32 0xffff_f001 < 0xffff_f001)
backing_size_wraps_example = backing_size_wraps 0xffff_f001 (omega arith) (omega arith)

interrupt_dpc-Owned_example :
    Owned nothing (interrupt_dpc machine none returned_first created_driver)
interrupt_dpc-Owned_example =
    interrupt_dpc-Owned machine first_fit-RtlLaws nothing none returned_first created_driver
      created_driver-Owned

process_notify-Owned_example : Owned nothing (process_notify machine 100 false created_driver)
process_notify-Owned_example =
    process_notify-Owned machine first_fit-RtlLaws nothing 100 false created_driver
      created_driver-Owned

-- The processes 100 and 200 both have a context; a resource is created for the first.
abbrev two_contexts : Driver
two_contexts = record created_driver {
  contexts = (record context { id = 200 }) ∷ created_driver.contexts;
}

io_control-Spares_example :
    get_virgl_context_from_list 200 (io_control machine create_request 0x22_201a two_contexts).1
    ≡ get_virgl_context_from_list 200 two_contexts
io_control-Spares_example =
    io_control-Spares machine 200 (λ e. absurd (omega arith)) refl create_request 0x22_201a
      two_contexts

-- No process has a context yet, and one asks for a resource.
io_control_no_context_example :
    (status : ℕ) × (2 ^ 31 ≤ status)
    × (n : ℕ) × (io_control machine create_request 0x22_201a loaded
        ≡ (completed status n Output.untouched, loaded))
unfolding get_virgl_context_from_list ioctl_code
io_control_no_context_example =
    io_control_no_context machine create_request 0x22_201a loaded refl (λ e. absurd (omega arith))
      (λ e. absurd (omega arith)) (λ e. absurd (omega arith))
