-- ===== src/Control/Params.antt =====
-- kernelmode/vgpu/control.c and command.c: device parameters and capability sets.
use mvisor_win_vgpu_driver.Common.{
  ℕ, zero, suc, ◌+◌, ◌-◌, ◌%◌, ◌^◌, bit_and, bit_or, Bool, true, ◌&&◌, Option, none, some, List,
  ◌==◌, leb, if◌then◌else◌, set, find_first,
}
use mvisor_win_vgpu_driver.Memory.{add_size}
use mvisor_win_vgpu_driver.Wire.{
  CtrlType, Command, Body, sizeof, sizeof_ctrl_hdr, sizeof_resp_capset_info,
}
use mvisor_win_vgpu_driver.Driver.{
  Driver, DrvCapset, Capsets, status_success, status_unsuccessful, null,
}
use mvisor_win_vgpu_driver.Os.{Os}
use mvisor_win_vgpu_driver.Command.Push.{
  control_queue, outstanding, set_outstanding, hdr, allocate_command_buffer, send,
}
use mvisor_win_vgpu_driver.Interrupt.{serve}
use mvisor_win_vgpu_driver.Exec.{
  modify, Exec, ok, blocked, ◌>>=◌, ◌>>◌, return, leave_with, nt_success,
}
use mvisor_win_vgpu_driver.Request.{
  Request, Io, Output, retrieve_input, retrieve_output, write_output, update_driver, get_driver,
  u64_at,
}
use mvisor_win_vgpu_driver.Abi.{GetCaps, sizeof_get_caps, get_caps_of, param_supported_capset_ids}
use mvisor_win_vgpu_driver.Control.Contexts.{bit_of}

-- A query is put on the control queue with an event, and the thread waits until the device has
-- returned its buffer, which it then frees; other interrupts are served in the meantime. If the queue
-- took no buffer the event is never set.
unfoldable pub query : Os → Command → ℕ → Exec Driver (Unit {0})
query os command resp_size d =
    let buffer = allocate_command_buffer os (sizeof command.body) resp_size true null command in
    let (status, sent) = send os control_queue command resp_size buffer d in
    let answered = set_outstanding control_queue (outstanding control_queue d) sent in
    if nt_success status
    then (ok tt, serve os os.interrupts answered)
    else (blocked, serve os os.interrupts sent)

abbrev pub no_capset : DrvCapset
no_capset = record { id = 0; max_version = 0; max_size = 0 }

-- What is stored of an answer.
abbrev pub store_capset : ℕ → DrvCapset → Capsets → Capsets
store_capset i answer c = record c {
  entries = set c.entries i answer;
  capset_id_mask = bit_or c.capset_id_mask (bit_of answer.id);
}

abbrev pub capset_info_query : ℕ → Command
capset_info_query i = record {
  hdr = hdr CtrlType.get_capset_info 0;
  body = Body.capset_info_request i;
}

-- `GetCapsInfo`, from index `i` on, with `n` capsets to go.
unfoldable pub get_caps_info : Os → ℕ → ℕ → Exec Driver (Unit {0})
get_caps_info os zero i = return tt
get_caps_info os (suc n) i = do
  query os (capset_info_query i) sizeof_resp_capset_info
  modify (λ d. record d { capsets = store_capset i (os.capset_info i) d.capsets })
  get_caps_info os n (i + 1)

-- `GetCaps` with an index into the capsets and the requested version.
unfoldable pub get_caps : Os → DrvCapset → ℕ → Exec Driver (List ℕ)
get_caps os capset version = do
  query os
      (record { hdr = hdr CtrlType.get_capset 0; body = Body.capset_request capset.id version })
      (add_size sizeof_ctrl_hdr capset.max_size)
  return (os.capset_data capset.id version)

-- A statement about the driver alone.
unfoldable pub on_driver : {A : Type 0} → Exec Driver A → Exec Io A
on_driver m s = let (r, d) = m s.driver in (r, record s { driver = d })

abbrev pub mark_initialized : Driver → Driver
mark_initialized d = record d { capsets = record (d.capsets) { initialized = true } }

unfoldable pub ensure_caps_info : Os → Exec Io (Unit {0})
ensure_caps_info os = do
  d ← get_driver
  if d.capsets.initialized
      then return tt
      else (do on_driver (get_caps_info os d.capsets.num_caps 0); update_driver mark_initialized)

-- The `switch` on the parameter. The capability bit is `1LL << (*input - 1)` on 64 bits.
unfoldable pub param_value : Os → ℕ → Driver → Output
param_value os param d =
    if param == 0x1000
    then Output.one_byte os.staging
    else if param == param_supported_capset_ids
    then Output.u64 d.capsets.capset_id_mask
    else if bit_and d.capabilities (bit_of ((param + 2 ^ 64 - 1) % 2 ^ 64)) == 0
    then Output.u64 0
    else Output.u64 1

unfoldable pub ctl_get_params : Os → Request → Exec Io ℕ
ctl_get_params os request = do
  ensure_caps_info os
  _ ← retrieve_input request 8
  status ← retrieve_output request 8
  d ← get_driver
  write_output (param_value os (u64_at request.input 0) d)
  return status

-- The first capset with the identifier, of at least the version.
abbrev pub matches : GetCaps → DrvCapset → Bool
matches get c = c.id == get.cap_set_id && leb get.cap_set_ver c.max_version

abbrev pub send_caps : Os → Request → GetCaps → Option DrvCapset → Exec Io ℕ
send_caps os request get none = leave_with status_unsuccessful
send_caps os request get (some capset) = do
  _ ← retrieve_output request capset.max_size
  bytes ← on_driver (get_caps os capset get.cap_set_ver)
  write_output (Output.caps bytes)
  return status_success

unfoldable pub ctl_get_caps : Os → Request → Exec Io ℕ
ctl_get_caps os request = do
  _ ← retrieve_input request sizeof_get_caps
  let get = get_caps_of request.input
  d ← get_driver
  send_caps os request get (find_first (matches get) d.capsets.entries)
