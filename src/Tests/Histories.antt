-- ===== src/Tests/Histories.antt =====
-- A short history: a process opens a context, creates a resource, the device returns the first
-- command, and the process ends.
use mvisor_win_vgpu_driver.Memory.Regions.{Holds, bit_count}
use mvisor_win_vgpu_driver.Control.Submission.{next_fence_id}
use mvisor_win_vgpu_driver.Common.{◌*◌, ◌≤◌, ◌≡◌, refl, false, none, List, [], ◌∷◌, arith}
use mvisor_win_vgpu_driver.Driver.{Driver, status_success}
use mvisor_win_vgpu_driver.Ioctl.{io_control, ioctl_of, ioctl_code, handle}
use mvisor_win_vgpu_driver.Control.Contexts.{
  ctl_init_virgl_context, read_user_buffer, set_params, set_param, ctl_destroy_virgl_context,
  delete_resources,
}
use mvisor_win_vgpu_driver.Exec.{◌>>=◌}
use mvisor_win_vgpu_driver.Request.{
  get_driver, retrieve_input, set_bytes_return, update_driver, u32_at, u64_at, retrieve_output,
  call_driver, write_output,
}
use mvisor_win_vgpu_driver.Lookup.{get_virgl_context_from_list}
use mvisor_win_vgpu_driver.Os.{Interrupt}
use mvisor_win_vgpu_driver.Device.{prepare_hardware, process_notify}
use mvisor_win_vgpu_driver.Abi.{context_set_params, context_init_of, resource_create_of}
use mvisor_win_vgpu_driver.Command.Send.{
  create_virgl_context, create_3d_resource, attach_resource_backing, detach_resource_backing,
  unref_resource, destroy_virgl_context,
}
use mvisor_win_vgpu_driver.Command.Push.{send_command, allocate_command_buffer, send, push_queue}
use mvisor_win_vgpu_driver.Command.Sg.{build_sg_element, sg_loop}
use mvisor_win_vgpu_driver.Control.Resources.{
  ctl_create_resource, current_context, next_resource_id, create_backing, backing_size, allocate,
  insert_resource,
}
use mvisor_win_vgpu_driver.Idr.{get_id_from_idr_without_cache, initialize_idr}
use mvisor_win_vgpu_driver.Memory.{
  page_size, allocate_vgpu_memory, record_allocation, initialize_vgpu_memory, free_vgpu_memory,
  record_free,
}
use mvisor_win_vgpu_driver.Interrupt.{interrupt_dpc, read_from_queue, dispatch}
use mvisor_win_vgpu_driver.Control.Share.{delete_resource, release_backing}
use mvisor_win_vgpu_driver.Ownership.Invariant.{Owned, nothing}
use mvisor_win_vgpu_driver.Ownership.Reach.{io_control-Owned}
use mvisor_win_vgpu_driver.Ownership.Reach.Events.{
  Event, request, interrupt, process, run, HasIds, Accepts, users, prepare_hardware-Owned,
  prepare_hardware_lem, run-users, run-Owned,
}
use mvisor_win_vgpu_driver.OneContext.{opened}
use mvisor_win_vgpu_driver.OneContext.Reach.{run-opened, process_notify_closes}
use mvisor_win_vgpu_driver.Tests.FirstFit.{search_run, first_fit, first_fit-RtlLaws}
use mvisor_win_vgpu_driver.Tests.Machine.{machine, hardware, loaded, init_request, create_request}

abbrev pub returned_first : Interrupt
returned_first = record {
  on_command_queue = record { index = 0; gpa = 0; size = 0 } ∷ [];
  on_control_queue = [];
}

abbrev returned : Event
returned = interrupt machine none returned_first

abbrev pub history : List Event
history =
    request machine init_request 0x222002
    ∷ request machine create_request 0x22201a
    ∷ returned
    ∷ process machine 100 false
    ∷ []

abbrev pub ready : Driver
ready = (prepare_hardware hardware loaded).1

abbrev pub created : List Event
created = request machine init_request 0x222002 ∷ request machine create_request 0x22201a ∷ []

-- The resource takes two pages, and the end of the process gives them back.
created_available :
    let created =
      request machine init_request 0x222002 ∷ request machine create_request 0x22201a ∷ [] in
    (run first_fit created ready).memory.available ≡ 14 * page_size
unfolding io_control ioctl_of ioctl_code handle ctl_init_virgl_context ◌>>=◌ get_driver
    get_virgl_context_from_list prepare_hardware retrieve_input set_bytes_return read_user_buffer
    set_params set_param context_set_params context_init_of update_driver create_virgl_context
    send_command allocate_command_buffer send push_queue build_sg_element sg_loop u32_at u64_at
    ctl_create_resource retrieve_output current_context call_driver next_resource_id
    get_id_from_idr_without_cache create_3d_resource create_backing backing_size allocate
    allocate_vgpu_memory record_allocation search_run attach_resource_backing insert_resource
    write_output resource_create_of initialize_idr initialize_vgpu_memory
created_available = refl

exited_available : (run first_fit history ready).memory.available ≡ 16 * page_size
unfolding io_control ioctl_of ioctl_code handle ctl_init_virgl_context ◌>>=◌ get_driver
    get_virgl_context_from_list prepare_hardware retrieve_input set_bytes_return read_user_buffer
    set_params set_param context_set_params context_init_of update_driver create_virgl_context
    send_command allocate_command_buffer send push_queue build_sg_element sg_loop u32_at u64_at
    ctl_create_resource retrieve_output current_context call_driver next_resource_id
    get_id_from_idr_without_cache create_3d_resource create_backing backing_size allocate
    allocate_vgpu_memory record_allocation search_run attach_resource_backing insert_resource
    write_output resource_create_of initialize_idr initialize_vgpu_memory interrupt_dpc
    read_from_queue dispatch process_notify ctl_destroy_virgl_context delete_resources
    delete_resource release_backing detach_resource_backing free_vgpu_memory record_free
    unref_resource destroy_virgl_context
exited_available = refl

pub history-HasIds : HasIds first_fit history ready
unfolding io_control ioctl_of ioctl_code handle ctl_init_virgl_context ◌>>=◌ get_driver
    get_virgl_context_from_list prepare_hardware retrieve_input set_bytes_return read_user_buffer
    set_params set_param context_set_params context_init_of update_driver create_virgl_context
    send_command allocate_command_buffer send push_queue build_sg_element sg_loop u32_at u64_at
    ctl_create_resource retrieve_output current_context call_driver next_resource_id
    get_id_from_idr_without_cache create_3d_resource create_backing backing_size allocate
    allocate_vgpu_memory record_allocation search_run attach_resource_backing insert_resource
    write_output resource_create_of initialize_idr initialize_vgpu_memory interrupt_dpc
    read_from_queue dispatch process_notify ctl_destroy_virgl_context delete_resources
    delete_resource release_backing detach_resource_backing free_vgpu_memory record_free
    unref_resource destroy_virgl_context
history-HasIds = (omega arith, (omega arith, (omega arith, (omega arith, tt))))

pub created-HasIds : HasIds first_fit created ready
unfolding io_control ioctl_of ioctl_code handle ctl_init_virgl_context ◌>>=◌ get_driver
    get_virgl_context_from_list prepare_hardware retrieve_input set_bytes_return read_user_buffer
    set_params set_param context_set_params context_init_of update_driver create_virgl_context
    send_command allocate_command_buffer send push_queue build_sg_element sg_loop u32_at u64_at
    ctl_create_resource retrieve_output current_context call_driver next_resource_id
    get_id_from_idr_without_cache create_3d_resource create_backing backing_size allocate
    allocate_vgpu_memory record_allocation search_run attach_resource_backing insert_resource
    write_output resource_create_of initialize_idr initialize_vgpu_memory interrupt_dpc
    read_from_queue dispatch process_notify ctl_destroy_virgl_context delete_resources
    delete_resource release_backing detach_resource_backing free_vgpu_memory record_free
    unref_resource destroy_virgl_context
created-HasIds = (omega arith, (omega arith, tt))

hardware-Accepts : Accepts hardware 16
hardware-Accepts = record {
  buffer = refl;
  sized = refl;
  numbered = omega arith;
  addressed = omega arith;
}

pub is_prepared : (prepare_hardware hardware loaded).0 ≡ status_success
unfolding prepare_hardware
is_prepared = refl

prepare_hardware_example :
    Owned nothing ready
    × Holds [] ready.memory
    × (ready.memory.available ≡ 16 * page_size)
    × (ready.contexts ≡ [])
    × ((next_resource_id ready).0 ≡ 1)
    × ((next_fence_id ready).0 ≡ 1)
prepare_hardware_example =
    prepare_hardware_lem hardware 16 loaded hardware-Accepts refl refl is_prepared

ready-Owned : Owned nothing ready
ready-Owned = prepare_hardware-Owned hardware 16 loaded hardware-Accepts refl refl is_prepared

abbrev pub created_driver : Driver
created_driver = run first_fit created ready

pub created_driver-Owned : Owned nothing created_driver
created_driver-Owned =
    run-Owned first_fit first_fit-RtlLaws created ready created-HasIds ready-Owned

exited-Owned : Owned nothing (run first_fit history ready)
exited-Owned = run-Owned first_fit first_fit-RtlLaws history ready history-HasIds ready-Owned

-- Page 1 belongs to the resource.
run-users_example :
    let now = run first_fit created (prepare_hardware hardware loaded).1 in
    users 1 now ≤ bit_count (now.memory.bitmap.bit 1)
run-users_example =
    run-users 1 first_fit hardware 16 loaded created first_fit-RtlLaws hardware-Accepts refl refl
      is_prepared created-HasIds

one_user : users 1 (run first_fit created ready) ≡ 1
unfolding io_control ioctl_of ioctl_code handle ctl_init_virgl_context ◌>>=◌ get_driver
    get_virgl_context_from_list prepare_hardware retrieve_input set_bytes_return read_user_buffer
    set_params set_param context_set_params context_init_of update_driver create_virgl_context
    send_command allocate_command_buffer send push_queue build_sg_element sg_loop u32_at u64_at
    ctl_create_resource retrieve_output current_context call_driver next_resource_id
    get_id_from_idr_without_cache create_3d_resource create_backing backing_size allocate
    allocate_vgpu_memory record_allocation search_run attach_resource_backing insert_resource
    write_output resource_create_of initialize_idr initialize_vgpu_memory interrupt_dpc
    read_from_queue dispatch process_notify ctl_destroy_virgl_context delete_resources
    delete_resource release_backing detach_resource_backing free_vgpu_memory record_free
    unref_resource destroy_virgl_context
one_user = refl

io_control-Owned_example : Owned nothing (io_control machine init_request 0x222002 ready).1
io_control-Owned_example =
    io_control-Owned machine first_fit-RtlLaws init_request 0x222002 ready ready-Owned
      (omega (arith, created-HasIds.0))

run-opened_example :
    opened 100 (run first_fit created (prepare_hardware hardware loaded).1).contexts ≤ 1
run-opened_example = run-opened first_fit hardware loaded created is_prepared 100

process_notify_closes_example :
    let now = run first_fit created (prepare_hardware hardware loaded).1 in
    get_virgl_context_from_list 100 (process_notify machine 100 false now) ≡ none
process_notify_closes_example =
    process_notify_closes machine 100 (run first_fit created (prepare_hardware hardware loaded).1)
      (run-opened first_fit hardware loaded created is_prepared 100)
