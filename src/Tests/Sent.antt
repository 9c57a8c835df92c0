-- ===== src/Tests/Sent.antt =====
-- The commands of a short history, as the host sees them, and the memory that the
-- process gives back.
use mvisor_win_vgpu_driver.Common.{List, [], ◌∷◌, false, ℕ, ◌≡◌, refl, Option, none, some}
use mvisor_win_vgpu_driver.Ioctl.{io_control, ioctl_of, ioctl_code, handle}
use mvisor_win_vgpu_driver.Control.Contexts.{
  ctl_init_virgl_context, read_user_buffer, set_params, set_param,
}
use mvisor_win_vgpu_driver.Exec.{◌>>=◌}
use mvisor_win_vgpu_driver.Request.{
  get_driver, retrieve_input, set_bytes_return, update_driver, u32_at, u64_at, retrieve_output,
  call_driver, write_output,
}
use mvisor_win_vgpu_driver.Lookup.{get_virgl_context_from_list}
use mvisor_win_vgpu_driver.Device.{process_notify, prepare_hardware}
use mvisor_win_vgpu_driver.Abi.{context_set_params, context_init_of, resource_create_of}
use mvisor_win_vgpu_driver.Command.Send.{
  create_virgl_context, create_3d_resource, attach_resource_backing,
}
use mvisor_win_vgpu_driver.Command.Push.{send_command, allocate_command_buffer, send, push_queue}
use mvisor_win_vgpu_driver.Command.Sg.{build_sg_element, sg_loop}
use mvisor_win_vgpu_driver.Control.Resources.{
  ctl_create_resource, current_context, next_resource_id, create_backing, backing_size, allocate,
  insert_resource,
}
use mvisor_win_vgpu_driver.Idr.{get_id_from_idr_without_cache, initialize_idr}
use mvisor_win_vgpu_driver.Memory.{allocate_vgpu_memory, record_allocation, initialize_vgpu_memory}
use mvisor_win_vgpu_driver.Driver.{Context}
use mvisor_win_vgpu_driver.Ownership.Returned.{held, process_notify-Gives}
use mvisor_win_vgpu_driver.Ownership.Memory.{Gives}
use mvisor_win_vgpu_driver.Ownership.Reach.Events.{run}
use mvisor_win_vgpu_driver.Host.{HostState, backed, served}
use mvisor_win_vgpu_driver.Host.Reach.{AllAccept, InStep, run-InStep}
use mvisor_win_vgpu_driver.Tests.FirstFit.{search_run, first_fit, first_fit-RtlLaws}
use mvisor_win_vgpu_driver.Tests.Machine.{machine, hardware, loaded}
use mvisor_win_vgpu_driver.Tests.Histories.{
  history, created, ready, history-HasIds, is_prepared, created_driver, created_driver-Owned,
}

-- The state of a resource at the host, if its commands were in order.
abbrev state_at_host : ℕ → Option (ℕ → HostState) → Option HostState
state_at_host id none = none
state_at_host id (some t) = some (t id)

created_backed : state_at_host 1 (served (run first_fit created ready).effects) ≡ some backed
unfolding io_control ioctl_of ioctl_code handle ctl_init_virgl_context ◌>>=◌ get_driver
    get_virgl_context_from_list prepare_hardware retrieve_input set_bytes_return read_user_buffer
    set_params set_param context_set_params context_init_of update_driver create_virgl_context
    send_command allocate_command_buffer send push_queue build_sg_element sg_loop u32_at u64_at
    ctl_create_resource retrieve_output current_context call_driver next_resource_id
    get_id_from_idr_without_cache create_3d_resource create_backing backing_size allocate
    allocate_vgpu_memory record_allocation search_run attach_resource_backing insert_resource
    write_output resource_create_of initialize_idr initialize_vgpu_memory
created_backed = refl

history-AllAccept : AllAccept history
history-AllAccept = (λ q l ds m n. refl, (λ q l ds m n. refl, (λ q l ds m n. refl, tt)))

run-InStep_example : InStep (run first_fit history ready)
run-InStep_example =
    run-InStep first_fit hardware loaded history refl is_prepared history-AllAccept history-HasIds

-- The context of the process, which is the first of the list.
abbrev first_context : List Context → Context
first_context [] = record { id = 0; resources = [] }
first_context (c ∷ cs) = c

abbrev its_context : Context
its_context = first_context created_driver.contexts

its_context-found : get_virgl_context_from_list 100 created_driver ≡ some its_context
unfolding io_control ioctl_of ioctl_code handle ctl_init_virgl_context ◌>>=◌ get_driver
    get_virgl_context_from_list prepare_hardware retrieve_input set_bytes_return read_user_buffer
    set_params set_param context_set_params context_init_of update_driver create_virgl_context
    send_command allocate_command_buffer send push_queue build_sg_element sg_loop u32_at u64_at
    ctl_create_resource retrieve_output current_context call_driver next_resource_id
    get_id_from_idr_without_cache create_3d_resource create_backing backing_size allocate
    allocate_vgpu_memory record_allocation search_run attach_resource_backing insert_resource
    write_output resource_create_of initialize_idr initialize_vgpu_memory
its_context-found = refl

process_notify-Gives_example :
    Gives
      (held its_context.resources)
      created_driver.memory
      (process_notify machine 100 false created_driver).memory
process_notify-Gives_example =
    process_notify-Gives machine first_fit-RtlLaws 100 its_context created_driver its_context-found
      created_driver-Owned
