-- ===== src/Ioctl.antt =====
-- kernelmode/vgpu/vgpu.c and ioctl.h: which handler serves which control code.
pub mod Codes
pub mod Kept
pub mod Alone
pub mod OfContexts
use mvisor_win_vgpu_driver.Common.{
  ℕ, ◌+◌, ◌*◌, true, false, Option, none, some, List, [], ◌∷◌, ◌==◌, if◌then◌else◌,
}
use mvisor_win_vgpu_driver.Driver.{
  Driver, Context, status_pending, status_unsuccessful, status_not_supported,
}
use mvisor_win_vgpu_driver.Os.{Os}
use mvisor_win_vgpu_driver.Exec.{Exec, Result, ok, leave, blocked, ◌>>=◌, return}
use mvisor_win_vgpu_driver.Request.{Request, Io, Output, get_driver, call_driver}
use mvisor_win_vgpu_driver.Lookup.{get_virgl_context_from_list}
use mvisor_win_vgpu_driver.Control.Contexts.{ctl_init_virgl_context, ctl_destroy_virgl_context}
use mvisor_win_vgpu_driver.Control.Params.{ctl_get_params, ctl_get_caps}
use mvisor_win_vgpu_driver.Control.Resources.{
  ctl_create_resource, ctl_create_blob_resource, ctl_close_resource,
}
use mvisor_win_vgpu_driver.Control.Waiting.{ctl_wait, ctl_map}
use mvisor_win_vgpu_driver.Control.Submission.{ctl_transfer_host, ctl_submit_command}

pub data Ioctl : Type 0 where
  context_init destroy_context map execbuffer getparam get_caps : Ioctl
  resource_create resource_close transfer_from_host transfer_to_host : Ioctl
  wait blob_resource_create : Ioctl

-- `METHOD_IN_DIRECT` and `METHOD_OUT_DIRECT`
abbrev pub method_in_direct : ℕ
method_in_direct = 1

abbrev pub method_out_direct : ℕ
method_out_direct = 2

-- `CTL_CODE(FILE_DEVICE_UNKNOWN, function, method, FILE_ANY_ACCESS)`
abbrev pub ctl_code : ℕ → ℕ → ℕ
ctl_code function method = 0x22 * 0x1_0000 + function * 4 + method

unfoldable pub ioctl_code : Ioctl → ℕ
ioctl_code context_init = ctl_code 0x800 method_out_direct
ioctl_code destroy_context = ctl_code 0x801 method_in_direct
ioctl_code map = ctl_code 0x802 method_out_direct
ioctl_code execbuffer = ctl_code 0x803 method_in_direct
ioctl_code getparam = ctl_code 0x804 method_out_direct
ioctl_code get_caps = ctl_code 0x805 method_out_direct
ioctl_code resource_create = ctl_code 0x806 method_out_direct
ioctl_code resource_close = ctl_code 0x807 method_in_direct
ioctl_code transfer_from_host = ctl_code 0x808 method_in_direct
ioctl_code transfer_to_host = ctl_code 0x809 method_in_direct
ioctl_code wait = ctl_code 0x810 method_out_direct
ioctl_code blob_resource_create = ctl_code 0x811 method_out_direct

-- The case of the `switch` that a control code takes.
abbrev pub first_case : ℕ → List Ioctl → Option Ioctl
first_case code [] = none
first_case code (k ∷ ks) = if code == ioctl_code k then some k else first_case code ks

-- The cases in the order of the source.
abbrev pub cases : List Ioctl
cases =
    context_init ∷ destroy_context ∷ getparam ∷ get_caps ∷ resource_create ∷ resource_close ∷ wait
    ∷ map ∷ execbuffer ∷ transfer_from_host ∷ transfer_to_host ∷ blob_resource_create ∷ []

unfoldable pub ioctl_of : ℕ → Option Ioctl
ioctl_of code = first_case code cases

abbrev pub destroy_found : Os → Option Context → Exec Io ℕ
destroy_found os none = return status_unsuccessful
destroy_found os (some c) = call_driver (ctl_destroy_virgl_context os c)

unfoldable pub handle : Os → Request → Ioctl → Exec Io ℕ
handle os request context_init = ctl_init_virgl_context os request
handle os request destroy_context = do
  d ← get_driver
  destroy_found os (get_virgl_context_from_list os.process_id d)
handle os request getparam = ctl_get_params os request
handle os request get_caps = ctl_get_caps os request
handle os request resource_create = ctl_create_resource os request
handle os request resource_close = ctl_close_resource os request
handle os request wait = ctl_wait os request
handle os request map = ctl_map os request
handle os request execbuffer = ctl_submit_command os request
handle os request transfer_from_host = ctl_transfer_host os false request
handle os request transfer_to_host = ctl_transfer_host os true request
handle os request blob_resource_create = ctl_create_blob_resource os request

-- What becomes of the request: it is completed with a status, the number of bytes and the output,
-- it is left pending, or its thread waits for ever.
pub data Answer : Type 0 where
  completed : ℕ → ℕ → Output → Answer
  pending : Answer
  waiting : Answer

abbrev pub complete : ℕ → Io → Answer
complete status s =
    if status == status_pending then pending else completed status s.bytes_return s.output

abbrev pub answer : Result ℕ → Io → Answer
answer (ok status) s = complete status s
answer (leave status) s = complete status s
answer blocked s = waiting

abbrev pub handle_case : Os → Request → Option Ioctl → Exec Io ℕ
handle_case os request none = return status_not_supported
handle_case os request (some k) = handle os request k

-- `VirtioVgpuIoControl`
unfoldable pub io_control : Os → Request → ℕ → Driver → Answer × Driver
io_control os request code d =
    let (r, s) =
      handle_case os request (ioctl_of code)
        (record { driver = d; bytes_return = 0; output = Output.untouched }) in
    (answer r s, s.driver)
