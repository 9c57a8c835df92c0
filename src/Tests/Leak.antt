-- ===== src/Tests/Leak.antt =====
-- A process asks for a resource that the guest memory has no room for, and submits commands with
-- handles that cannot be read.
use mvisor_win_vgpu_driver.Common.{
  ◌<◌, ◌^◌, ◌≡◌, ◌++◌, ◌∷◌, List, [], some, none, refl, arith, false, ◌==◌, ◌+◌, if◌then◌else◌,
}
use mvisor_win_vgpu_driver.Memory.{
  allocate_vgpu_memory, initialize_vgpu_memory, MemoryDescriptor, record_allocation,
}
use mvisor_win_vgpu_driver.Driver.{Driver, Context, status_insufficient_resources}
use mvisor_win_vgpu_driver.Exec.{leave, ◌>>=◌}
use mvisor_win_vgpu_driver.Request.{
  Request, Io, Output, retrieve_input, set_bytes_return, get_driver, update_driver, u32_at, u64_at,
}
use mvisor_win_vgpu_driver.Abi.{
  context_set_params, context_init_of, resource_create_of, execbuffer_of,
}
use mvisor_win_vgpu_driver.Lookup.{get_virgl_context_from_list}
use mvisor_win_vgpu_driver.Idr.{initialize_idr}
use mvisor_win_vgpu_driver.Command.Send.{create_virgl_context}
use mvisor_win_vgpu_driver.Command.Push.{send_command, allocate_command_buffer, send, push_queue}
use mvisor_win_vgpu_driver.Command.Sg.{build_sg_element, sg_loop}
use mvisor_win_vgpu_driver.Control.Contexts.{
  ctl_init_virgl_context, read_user_buffer, set_params, set_param,
}
use mvisor_win_vgpu_driver.Control.Resources.{ctl_create_resource, backing_size, round_up}
use mvisor_win_vgpu_driver.Ioctl.{io_control, ioctl_of, ioctl_code, handle}
use mvisor_win_vgpu_driver.Device.{prepare_hardware}
use mvisor_win_vgpu_driver.Ownership.Reach.Events.{Event, request, run, HasIds}
use mvisor_win_vgpu_driver.Ownership.Steps.{next_id}
use mvisor_win_vgpu_driver.Host.{absent, bare}
use mvisor_win_vgpu_driver.Host.Creation.{Tracked}
use mvisor_win_vgpu_driver.Host.Reach.{run_prepared-Tracked}
use mvisor_win_vgpu_driver.Host.Leak.{IsWellFormed, AtHost, create_resource_leaks}
use mvisor_win_vgpu_driver.Control.Unsent.{SameQueues, IsReadable, holding, submit_command_leaks}
use mvisor_win_vgpu_driver.Control.Submission.{take_handles, ctl_submit_command}
use mvisor_win_vgpu_driver.Os.{Os}
use mvisor_win_vgpu_driver.Tests.FirstFit.{search_run, first_fit}
use mvisor_win_vgpu_driver.Tests.Machine.{machine, hardware, loaded, init_request, zeros}
use mvisor_win_vgpu_driver.Tests.Fences.{resource}
use mvisor_win_vgpu_driver.Tests.Histories.{ready, is_prepared}

abbrev opening : List Event
opening = request machine init_request 0x222002 ∷ []

abbrev open_driver : Driver
open_driver = run first_fit opening ready

abbrev open_context : Context
open_context = record { id = 100; resources = [] }

-- 32 pages, of which the device has 16.
abbrev large_request : Request
large_request = record {
  input_status = 0;
  input = zeros 50 ++ 2 ∷ zeros 5;
  output_status = 0;
  output_length = 8;
}

large_request-IsWellFormed : IsWellFormed large_request
large_request-IsWellFormed = record {
  input_success = refl;
  input_size = refl;
  output_success = refl;
  output_size = refl;
}

abbrev io : Io
io = record { driver = open_driver; bytes_return = 0; output = Output.untouched }

opening-HasIds : HasIds first_fit opening ready
unfolding io_control ioctl_of ioctl_code handle ctl_init_virgl_context ◌>>=◌ get_driver
    get_virgl_context_from_list prepare_hardware retrieve_input set_bytes_return read_user_buffer
    set_params set_param context_set_params context_init_of update_driver create_virgl_context
    send_command allocate_command_buffer send push_queue build_sg_element sg_loop u32_at u64_at
    initialize_idr initialize_vgpu_memory
opening-HasIds = (omega arith, tt)

open_driver-Tracked : Tracked open_driver
open_driver-Tracked =
    run_prepared-Tracked first_fit hardware loaded opening refl is_prepared
      ((λ q l ds m n. refl), tt) opening-HasIds

open_context-found : get_virgl_context_from_list 100 open_driver ≡ some open_context
unfolding io_control ioctl_of ioctl_code handle ctl_init_virgl_context ◌>>=◌ get_driver
    get_virgl_context_from_list prepare_hardware retrieve_input set_bytes_return read_user_buffer
    set_params set_param context_set_params context_init_of update_driver create_virgl_context
    send_command allocate_command_buffer send push_queue build_sg_element sg_loop u32_at u64_at
    initialize_idr initialize_vgpu_memory
open_context-found = refl

is_full :
    (allocate_vgpu_memory machine.rtl
      (backing_size (resource_create_of large_request.input).size)
      open_driver.memory).0
    ≡ none
unfolding io_control ioctl_of ioctl_code handle ctl_init_virgl_context ◌>>=◌ get_driver
    get_virgl_context_from_list prepare_hardware retrieve_input set_bytes_return read_user_buffer
    set_params set_param context_set_params context_init_of update_driver create_virgl_context
    send_command allocate_command_buffer send push_queue build_sg_element sg_loop u32_at u64_at
    initialize_idr initialize_vgpu_memory resource_create_of backing_size allocate_vgpu_memory
    search_run
is_full = refl

ids_left : next_id open_driver < 2 ^ 32
unfolding io_control ioctl_of ioctl_code handle ctl_init_virgl_context ◌>>=◌ get_driver
    get_virgl_context_from_list prepare_hardware retrieve_input set_bytes_return read_user_buffer
    set_params set_param context_set_params context_init_of update_driver create_virgl_context
    send_command allocate_command_buffer send push_queue build_sg_element sg_loop u32_at u64_at
    initialize_idr initialize_vgpu_memory
ids_left = omega arith

has_buffer : ((resource_create_of large_request.input).size == 1) ≡ false
unfolding resource_create_of u32_at
has_buffer = refl

create_resource_leaks_example :
    let (result, after) = ctl_create_resource machine large_request io in
    (result ≡ leave status_insufficient_resources)
    × (after.driver.contexts ≡ open_driver.contexts)
    × AtHost (next_id open_driver) absent open_driver
    × AtHost (next_id open_driver) bare after.driver
create_resource_leaks_example =
    create_resource_leaks machine large_request open_context (λ q l ds m n. refl) (resource 0) io
      large_request-IsWellFormed open_context-found refl has_buffer is_full open_driver-Tracked
      ids_left

-- A page of commands at the address 1, and the handle of a resource at the address 0, which is no
-- address of the process.
abbrev submit_request : Request
submit_request = record {
  input_status = 0;
  input = zeros 5 ++ 0x10 ∷ 0 ∷ 0 ∷ 1 ∷ zeros 15 ++ 1 ∷ zeros 23;
  output_status = 0;
  output_length = 0;
}

abbrev guarded : Os
guarded = record machine { probe_and_lock = λ a n. if a == 0 then 0xc000_0005 else 0 }

submit_request-IsReadable : IsReadable guarded submit_request []
unfolding execbuffer_of u32_at u64_at
submit_request-IsReadable = record {
  input_success = refl;
  input_size = refl;
  no_in_fence = refl;
  no_out_fence = refl;
  locked = refl;
  mapped = refl;
}

abbrev page_of_commands : MemoryDescriptor
page_of_commands = record { virtual_address = 0x10000; physical_address = 0x8000_0000 }

has_room :
    (allocate_vgpu_memory first_fit
      (round_up 32 (execbuffer_of submit_request.input).size)
      open_driver.memory).0
    ≡ some page_of_commands
unfolding io_control ioctl_of ioctl_code handle ctl_init_virgl_context ◌>>=◌ get_driver
    get_virgl_context_from_list prepare_hardware retrieve_input set_bytes_return read_user_buffer
    set_params set_param context_set_params context_init_of update_driver create_virgl_context
    send_command allocate_command_buffer send push_queue build_sg_element sg_loop u32_at u64_at
    initialize_idr initialize_vgpu_memory execbuffer_of allocate_vgpu_memory record_allocation
    search_run
has_room = refl

no_handles :
    (take_handles guarded open_context
      (execbuffer_of submit_request.input)
      0
      (holding guarded submit_request open_context io)).0
    ≡ leave 0xc000_0005
unfolding take_handles read_user_buffer execbuffer_of u32_at u64_at ◌>>=◌
no_handles = refl

is_64_bit : open_driver.memory.available < 2 ^ 64
unfolding io_control ioctl_of ioctl_code handle ctl_init_virgl_context ◌>>=◌ get_driver
    get_virgl_context_from_list prepare_hardware retrieve_input set_bytes_return read_user_buffer
    set_params set_param context_set_params context_init_of update_driver create_virgl_context
    send_command allocate_command_buffer send push_queue build_sg_element sg_loop u32_at u64_at
    initialize_idr initialize_vgpu_memory
is_64_bit = omega arith

submit_command_leaks_example :
    let (result, after) = ctl_submit_command guarded submit_request io in
    (result ≡ leave 0xc000_0005)
    × SameQueues open_driver after.driver
    × (after.driver.memory.available + round_up 32 (execbuffer_of submit_request.input).size
        ≡ open_driver.memory.available)
submit_command_leaks_example =
    submit_command_leaks guarded submit_request open_context [] page_of_commands 0xc000_0005 io
      submit_request-IsReadable open_context-found has_room no_handles is_64_bit
