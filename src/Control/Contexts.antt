-- ===== src/Control/Contexts.antt =====
-- kernelmode/vgpu/control.c: creating and destroying virgl contexts.

use mvisor_win_vgpu_driver.Common.{
  ℕ, ◌*◌, ◌%◌, ◌^◌, bit_and, bit_or, Bool, true, false, Option, none, some, List, [], ◌∷◌, ◌==◌,
  ltb, if◌then◌else◌, remove_first,
}
use mvisor_win_vgpu_driver.Driver.{
  Driver, Context, Resource, status_success, status_unsuccessful, status_insufficient_resources,
}
use mvisor_win_vgpu_driver.Os.{Os}
use mvisor_win_vgpu_driver.Command.Send.{create_virgl_context, destroy_virgl_context}
use mvisor_win_vgpu_driver.Exec.{Exec, nt_success, ◌>>=◌, ◌>>◌, return, leave_with, unless}
use mvisor_win_vgpu_driver.Request.{Request, Io, retrieve_input, update_driver, get_driver}
use mvisor_win_vgpu_driver.Abi.{
  ContextSetParam, sizeof_context_init, sizeof_context_set_param, context_init_of,
  context_set_params, max_capset_id, context_param_capset_id,
}
use mvisor_win_vgpu_driver.Lookup.{get_virgl_context_from_list, has_context_id}
use mvisor_win_vgpu_driver.Control.Share.{delete_resource}

-- A test that a pointer is NULL.
abbrev pub is_none {ℓ} : {A : Type ℓ} → Option A → Bool
is_none none = true
is_none (some _) = false

-- `1LL << n`; a shift by 64 or more, which C leaves open, is by the low six bits on x64.
abbrev pub bit_of : ℕ → ℕ
bit_of n = 2 ^ (n % 64)

-- One round of the loop over the parameters, on `status` and `contextInit`: a wrong parameter sets
-- the status, and the loop goes on.
unfoldable pub set_param : ℕ → ContextSetParam → ℕ × ℕ → ℕ × ℕ
set_param mask p (status, init) =
    if p.param == context_param_capset_id
    then if ltb max_capset_id p.value
      then (status_unsuccessful, init)
      else if bit_and mask (bit_of p.value) == 0
      then (status_unsuccessful, init)
      else (status, bit_or init p.value)
    else (status_unsuccessful, init)

unfoldable pub set_params : ℕ → List ContextSetParam → ℕ × ℕ → ℕ × ℕ
set_params mask [] acc = acc
set_params mask (p ∷ ps) acc = set_params mask ps (set_param mask p acc)

-- `WdfRequestProbeAndLockUserBufferForRead` and `WdfMemoryGetBuffer`, each with its check: the
-- status and the bytes.
abbrev pub user_bytes : ℕ → Option (List ℕ) → Exec Io (ℕ × List ℕ)
user_bytes status none = leave_with status_unsuccessful
user_bytes status (some bytes) = return (status, bytes)

unfoldable pub read_user_buffer : Os → ℕ → ℕ → Exec Io (ℕ × List ℕ)
read_user_buffer os address size =
    let status = os.probe_and_lock address size in
    if nt_success status
    then user_bytes status (os.memory_buffer address size)
    else leave_with status

abbrev pub insert_context : ℕ → Driver → Driver
insert_context id d = record d { contexts = record { id = id; resources = [] } ∷ d.contexts }

unfoldable pub ctl_init_virgl_context : Os → Request → Exec Io ℕ
ctl_init_virgl_context os request = do
  d ← get_driver
  unless (is_none (get_virgl_context_from_list os.process_id d)) status_unsuccessful
  _ ← retrieve_input request sizeof_context_init
  let init = context_init_of request.input
  (locked, bytes) ←
      read_user_buffer os init.ctx_set_params (init.num_params * sizeof_context_set_param)
  let (status, context_init) =
      set_params d.capsets.capset_id_mask (context_set_params init.num_params 0 bytes) (locked, 0)
  unless (nt_success status) status
  unless os.pool_for_context status_insufficient_resources
  update_driver (insert_context os.process_id)
  update_driver (create_virgl_context os os.process_id context_init)
  return status

abbrev pub remove_context : ℕ → Driver → Driver
remove_context id d = record d { contexts = remove_first (has_context_id id) d.contexts }

-- `RemoveTailList` until the list is empty: the tail is deleted first.
unfoldable pub delete_resources : Os → ℕ → List Resource → Driver → Driver
delete_resources os ctx [] d = d
delete_resources os ctx (r ∷ rs) d = delete_resource os ctx r (delete_resources os ctx rs d)

unfoldable pub ctl_destroy_virgl_context : Os → Context → Driver → ℕ × Driver
ctl_destroy_virgl_context os c d = (
  status_success,
  destroy_virgl_context os c.id (delete_resources os c.id c.resources (remove_context c.id d)),
)
