-- ===== src/Isolation/NoContext.antt =====
-- A process without a context, in kernelmode/vgpu/vgpu.c: the answer to its requests.
use mvisor_win_vgpu_driver.Common.{
  ℕ, ◌^◌, ◌≤◌, ◌≡◌, ◌≢◌, refl, true, false, Option, some, none, arith, ==_of_ne,
}
use mvisor_win_vgpu_driver.Driver.{Driver}
use mvisor_win_vgpu_driver.Os.{Os}
use mvisor_win_vgpu_driver.Exec.{Result, ok, leave, blocked, ◌>>=◌, return}
use mvisor_win_vgpu_driver.Request.{Request, Io, Output, get_driver}
use mvisor_win_vgpu_driver.Lookup.{get_virgl_context_from_list}
use mvisor_win_vgpu_driver.Ioctl.{
  Ioctl, context_init, destroy_context, map, execbuffer, getparam, get_caps, resource_create,
  resource_close, transfer_from_host, transfer_to_host, wait, blob_resource_create, handle,
  handle_case, ioctl_of, ioctl_code, io_control, completed, answer,
}
use mvisor_win_vgpu_driver.Ioctl.Codes.{ioctl_of_lem}
use mvisor_win_vgpu_driver.Isolation.Refusal.{
  Fails, Error, Refused, Refused-Error, create_resource-Refused, create_blob_resource-Refused,
  close_resource-Refused, wait-Refused, map-Refused, transfer_host-Refused, submit_command-Refused,
}

answer-Error :
    (r : Result ℕ) (s : Io)
    → Fails Error r
    → (status : ℕ) × (2 ^ 31 ≤ status) × (answer r s ≡ completed status s.bytes_return s.output)
answer-Error (ok a) s h = (a, h, rw (==_of_ne a 0x103 (λ e. omega arith)) refl)
answer-Error (leave a) s h = (a, h, rw (==_of_ne a 0x103 (λ e. omega arith)) refl)
answer-Error blocked s h = absurd h

module _ (os : Os) (request : Request) where
  destroy-Refused : Refused os Error (handle os request destroy_context)
  unfolding handle ◌>>=◌ get_driver return
  destroy-Refused = record { at = λ s e. rw e (refl, refl, omega arith) }

  handle-Refused :
      (k : Ioctl)
      → k ≢ context_init
      → k ≢ getparam
      → k ≢ get_caps
      → Refused os Error (handle os request k)
  unfolding handle
  handle-Refused context_init a b c = absurd (a refl)
  handle-Refused destroy_context a b c = destroy-Refused
  handle-Refused map a b c = map-Refused request
  handle-Refused execbuffer a b c = submit_command-Refused request
  handle-Refused getparam a b c = absurd (b refl)
  handle-Refused get_caps a b c = absurd (c refl)
  handle-Refused resource_create a b c = create_resource-Refused request
  handle-Refused resource_close a b c = close_resource-Refused request
  handle-Refused transfer_from_host a b c = transfer_host-Refused false request
  handle-Refused transfer_to_host a b c = transfer_host-Refused true request
  handle-Refused wait a b c = wait-Refused request
  handle-Refused blob_resource_create a b c = create_blob_resource-Refused request

  handle_case-Refused :
      (k : Option Ioctl)
      → k ≢ some context_init
      → k ≢ some getparam
      → k ≢ some get_caps
      → Refused os Error (handle_case os request k)
  handle_case-Refused none a b c = Refused-Error _ (omega arith)
  handle_case-Refused (some k) a b c =
      handle-Refused k (λ e. a (rw e refl)) (λ e. b (rw e refl)) (λ e. c (rw e refl))

  other_case : (code : ℕ) (k : Ioctl) → code ≢ ioctl_code k → ioctl_of code ≢ some k
  other_case code k other e = other ((ioctl_of_lem code k).0 e)

  -- A request of a process that has no context is completed with the status of an error, writes no
  -- output, and changes nothing, unless its code is that of opening a context, of reading a
  -- parameter or of reading a capset.
  pub io_control_no_context :
      (code : ℕ) (d : Driver)
      → get_virgl_context_from_list os.process_id d ≡ none
      → code ≢ ioctl_code context_init
      → code ≢ ioctl_code getparam
      → code ≢ ioctl_code get_caps
      → (status : ℕ) × (2 ^ 31 ≤ status)
        × (n : ℕ) × (io_control os request code d ≡ (completed status n Output.untouched, d))
  unfolding io_control
  io_control_no_context code d e init param caps =
      let s : Io = record { driver = d; bytes_return = 0; output = Output.untouched } in
      let m = handle_case os request (ioctl_of code) in
      let (same, out, h) =
        (handle_case-Refused (ioctl_of code) (other_case code _ init) (other_case code _ param)
            (other_case code _ caps)).at
          s e in
      let (status, bound, eq) = answer-Error (m s).0 (m s).1 h in
      (status, bound, (m s).1.bytes_return, cc)
