-- ===== src/Tests/Others.antt =====
-- A process that another process and the interrupts leave alone, and interrupts by message.
use mvisor_win_vgpu_driver.Common.{◌≡◌, false, none, List, [], ◌∷◌, arith}
use mvisor_win_vgpu_driver.Driver.{Driver}
use mvisor_win_vgpu_driver.Os.{Os}
use mvisor_win_vgpu_driver.Interrupt.{interrupt_dpc}
use mvisor_win_vgpu_driver.Interrupt.Messages.{each_message, each_message_lem}
use mvisor_win_vgpu_driver.Ownership.Reach.Events.{Event, request, interrupt, process, run}
use mvisor_win_vgpu_driver.Isolation.Outline.{sketch_of}
use mvisor_win_vgpu_driver.Isolation.Histories.{Others, run-Sketched}
use mvisor_win_vgpu_driver.Tests.FirstFit.{first_fit}
use mvisor_win_vgpu_driver.Tests.Machine.{machine, init_request, create_request}
use mvisor_win_vgpu_driver.Tests.Histories.{ready, created, returned_first}

-- The driver when the process 100 has a context with one resource.
abbrev in_use : Driver
in_use = run first_fit created ready

-- The same machine, when the process 200 calls.
abbrev for_other : Os
for_other = record machine { process_id = 200 }

abbrev of_other : List Event
of_other =
    request for_other init_request 0x222002
    ∷ request for_other create_request 0x22201a
    ∷ interrupt machine none returned_first
    ∷ process machine 200 false
    ∷ []

of_other-Others : Others 100 of_other
of_other-Others = (omega arith, (omega arith, (omega arith, tt)))

run-Sketched_example : sketch_of 100 (run first_fit of_other in_use) ≡ sketch_of 100 in_use
run-Sketched_example = run-Sketched 100 first_fit of_other in_use of_other-Others

each_message_example :
    each_message machine in_use.num_virt_queues returned_first in_use
    ≡ interrupt_dpc machine none returned_first in_use
each_message_example = each_message_lem machine returned_first in_use
