-- ===== src/Control/Negotiation.antt =====
-- How kernelmode/vgpu/control.c accepts the parameters of a new context.
use mvisor_win_vgpu_driver.Common.{
  ℕ, ◌≡◌, refl, Bool, true, not, ◌&&◌, List, [], ◌∷◌, arith, ◌==◌, leb, bit_and, bit_or,
  if◌then◌else◌,
}
use mvisor_win_vgpu_driver.Driver.{status_unsuccessful}
use mvisor_win_vgpu_driver.Abi.{ContextSetParam, max_capset_id, context_param_capset_id}
use mvisor_win_vgpu_driver.Control.Contexts.{set_param, set_params, bit_of}

-- A parameter that names a capset that the device has.
abbrev pub names_capset : ℕ → ContextSetParam → Bool
names_capset mask p =
    p.param == context_param_capset_id
    && leb p.value max_capset_id
    && not (bit_and mask (bit_of p.value) == 0)

abbrev pub all_capsets : ℕ → List ContextSetParam → Bool
all_capsets mask [] = true
all_capsets mask (p ∷ ps) = names_capset mask p && all_capsets mask ps

-- The identifiers that are accepted, or-ed together.
abbrev pub accepted : ℕ → List ContextSetParam → ℕ → ℕ
accepted mask [] init = init
accepted mask (p ∷ ps) init =
    accepted mask ps (if names_capset mask p then bit_or init p.value else init)

set_param_lem :
    (mask status init : ℕ) (p : ContextSetParam)
    → set_param mask p (status, init) ≡ (
      if names_capset mask p then status else status_unsuccessful,
      if names_capset mask p then bit_or init p.value else init,
    )
unfolding set_param
set_param_lem mask status init p = ground arith

-- The loop over the parameters keeps the status exactly if each parameter names a capset of the
-- device, and fails otherwise, wherever the wrong one stands; a wrong one adds nothing.
pub set_params_lem :
    (mask status init : ℕ) (ps : List ContextSetParam)
    → set_params mask ps (status, init)
      ≡ (if all_capsets mask ps then status else status_unsuccessful, accepted mask ps init)
unfolding set_params
set_params_lem mask status init [] = refl
set_params_lem mask status init (p ∷ ps) =
    let verdict = if names_capset mask p then status else status_unsuccessful in
    let so_far = if names_capset mask p then bit_or init p.value else init in
    rw (set_param_lem mask status init p, set_params_lem mask verdict so_far ps) (ground arith)
