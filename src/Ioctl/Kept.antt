-- ===== src/Ioctl/Kept.antt =====
-- `VirtioVgpuIoControl` and `ProcessNotify` of kernelmode/vgpu/vgpu.c keep what every handler keeps.
use mvisor_win_vgpu_driver.Common.{ℕ, ◌≡◌, refl, Bool, true, false, Option, none, some}
use mvisor_win_vgpu_driver.Driver.{Driver, Context}
use mvisor_win_vgpu_driver.Os.{Os}
use mvisor_win_vgpu_driver.Exec.{Exec, Result, ok, leave, blocked}
use mvisor_win_vgpu_driver.Request.{Request, Io, Output}
use mvisor_win_vgpu_driver.Lookup.{get_virgl_context_from_list}
use mvisor_win_vgpu_driver.Control.Contexts.{ctl_destroy_virgl_context}
use mvisor_win_vgpu_driver.Control.Resources.{
  ctl_create_resource, ctl_create_blob_resource, ctl_close_resource,
}
use mvisor_win_vgpu_driver.Control.Submission.{ctl_submit_command, ctl_transfer_host}
use mvisor_win_vgpu_driver.Control.Triples.{
  Triple, TripleAt, Ends-bind, Ends-return, Ends-call_driver, Ends-get_driver, Ends-before,
}
use mvisor_win_vgpu_driver.Control.Steady.{Steady, wait-Ends, map-Ends, init_context-Ends}
use mvisor_win_vgpu_driver.Control.Steady.Queries.{get_params-Ends, get_caps-Ends}
use mvisor_win_vgpu_driver.Ioctl.{
  Ioctl, context_init, destroy_context, map, execbuffer, getparam, get_caps, resource_create,
  resource_close, transfer_from_host, transfer_to_host, wait, blob_resource_create, destroy_found,
  handle, handle_case, ioctl_of, io_control,
}
use mvisor_win_vgpu_driver.Device.{destroy_if_found, process_notify}

-- What the destruction of a context keeps, and each handler that is not made of steady steps. The
-- handlers that create a resource may ask for more at the start.
pub record Kept (os : Os) (I K : Driver → Type 0) : Type 0 where
  pub weaker : (d : Driver) → K d → I d
  pub steady : Steady os I
  pub destroyed :
      (c : Context) (d : Driver)
      → get_virgl_context_from_list os.process_id d ≡ some c
      → I d
      → I (ctl_destroy_virgl_context os c d).1
  pub create : (r : Request) → Triple I K (ctl_create_resource os r) (λ _. I)
  pub create_blob : (r : Request) → Triple I K (ctl_create_blob_resource os r) (λ _. I)
  pub close : (r : Request) → Triple I I (ctl_close_resource os r) (λ _. I)
  pub submit : (r : Request) → Triple I I (ctl_submit_command os r) (λ _. I)
  pub transfer :
      (to_host : Bool) (r : Request) → Triple I I (ctl_transfer_host os to_host r) (λ _. I)

module _ (os : Os) (I K : Driver → Type 0) (k : Kept os I K) where
  TripleAt-kept : {A : Type 0} (r : Result A) (d : Driver) → TripleAt I (λ _. I) r d → I d
  TripleAt-kept (ok a) d h = h
  TripleAt-kept (leave status) d h = h
  TripleAt-kept blocked d h = h

  destroy_found-Ends :
      (found : Option Context)
      → Triple I
          (λ d. I d × (get_virgl_context_from_list os.process_id d ≡ found))
          (destroy_found os found)
          (λ _. I)
  destroy_found-Ends none = Ends-return _ (λ d h. h.0)
  destroy_found-Ends (some c) = Ends-call_driver _ (λ d h. k.destroyed c d h.1 h.0)

  destroy-Ends : (request : Request) → Triple I I (handle os request destroy_context) (λ _. I)
  unfolding handle
  destroy-Ends request =
      Ends-bind (λ a d. (a ≡ d) × I d) _ _ (Ends-get_driver I)
        (λ d. Ends-before _ _ (λ x h. (h.1, rw h.0 refl)) (destroy_found-Ends _))

  -- A handler that asks for no more than the invariant.
  from_kept : (m : Exec Io ℕ) → Triple I I m (λ _. I) → Triple I K m (λ _. I)
  from_kept m h = Ends-before K m k.weaker h

  handle-Ends : (request : Request) (i : Ioctl) → Triple I K (handle os request i) (λ _. I)
  unfolding handle
  handle-Ends request context_init = from_kept _ (init_context-Ends os I k.steady request)
  handle-Ends request destroy_context = from_kept _ (destroy-Ends request)
  handle-Ends request map = from_kept _ (map-Ends os I k.steady request)
  handle-Ends request execbuffer = from_kept _ (k.submit request)
  handle-Ends request getparam = from_kept _ (get_params-Ends os I k.steady request)
  handle-Ends request get_caps = from_kept _ (get_caps-Ends os I k.steady request)
  handle-Ends request resource_create = k.create request
  handle-Ends request resource_close = from_kept _ (k.close request)
  handle-Ends request transfer_from_host = from_kept _ (k.transfer false request)
  handle-Ends request transfer_to_host = from_kept _ (k.transfer true request)
  handle-Ends request wait = from_kept _ (wait-Ends os I k.steady request)
  handle-Ends request blob_resource_create = k.create_blob request

  handle_case-Ends :
      (request : Request) (i : Option Ioctl) → Triple I K (handle_case os request i) (λ _. I)
  handle_case-Ends request none = Ends-return _ k.weaker
  handle_case-Ends request (some i) = handle-Ends request i

  pub io_control-kept :
      (request : Request) (code : ℕ) (d : Driver) → K d → I (io_control os request code d).1
  unfolding io_control
  io_control-kept request code d h =
      let s : Io = record { driver = d; bytes_return = 0; output = Output.untouched } in
      TripleAt-kept (handle_case os request (ioctl_of code) s).0 _
        ((handle_case-Ends request (ioctl_of code)).at s h)

module _ (os : Os) (I : Driver → Type 0) (process : ℕ)
    (destroyed : (c : Context) (d : Driver)
      → get_virgl_context_from_list process d ≡ some c
      → I d
      → I (ctl_destroy_virgl_context os c d).1) where
  destroy_if_found-kept :
      (found : Option Context) (d : Driver)
      → get_virgl_context_from_list process d ≡ found
      → I d
      → I (destroy_if_found os found d)
  destroy_if_found-kept none d at h = h
  destroy_if_found-kept (some c) d at h = destroyed c d at h

  pub process_notify-kept :
      (create : Bool) (d : Driver) → I d → I (process_notify os process create d)
  unfolding process_notify
  process_notify-kept true d h = h
  process_notify-kept false d h = destroy_if_found-kept _ d refl h
