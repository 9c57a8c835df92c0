-- ===== src/Ioctl/Codes.antt =====
-- The control codes of kernelmode/vgpu/ioctl.h, and the `switch` of kernelmode/vgpu/vgpu.c on them.
use mvisor_win_vgpu_driver.Common.{ℕ, ◌≡◌, ◌↔◌, refl, some, List, [], ◌∷◌, arith}
use mvisor_win_vgpu_driver.Ioctl.{
  Ioctl, context_init, destroy_context, map, execbuffer, getparam, get_caps, resource_create,
  resource_close, transfer_from_host, transfer_to_host, wait, blob_resource_create, ioctl_code,
  ioctl_of, first_case, cases,
}

ioctl_of-ioctl_code : (k : Ioctl) → ioctl_of (ioctl_code k) ≡ some k
unfolding ioctl_of ioctl_code
ioctl_of-ioctl_code context_init = refl
ioctl_of-ioctl_code destroy_context = refl
ioctl_of-ioctl_code map = refl
ioctl_of-ioctl_code execbuffer = refl
ioctl_of-ioctl_code getparam = refl
ioctl_of-ioctl_code get_caps = refl
ioctl_of-ioctl_code resource_create = refl
ioctl_of-ioctl_code resource_close = refl
ioctl_of-ioctl_code transfer_from_host = refl
ioctl_of-ioctl_code transfer_to_host = refl
ioctl_of-ioctl_code wait = refl
ioctl_of-ioctl_code blob_resource_create = refl

first_case_sound :
    (code : ℕ) (ks : List Ioctl) (k : Ioctl) → first_case code ks ≡ some k → code ≡ ioctl_code k
first_case_sound code [] k e = ground arith
first_case_sound code (x ∷ ks) k e = ground (arith, first_case_sound code ks k)

-- Each handler is served by its own control code and by no other.
pub ioctl_of_lem : (code : ℕ) (k : Ioctl) → (ioctl_of code ≡ some k) ↔ (code ≡ ioctl_code k)
unfolding ioctl_of
ioctl_of_lem code k = (first_case_sound code cases k, λ e. rw e (ioctl_of-ioctl_code k))
