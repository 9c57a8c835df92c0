-- ===== src/Control/Steady/Fences.antt =====
-- The parts of `CtlSubmitCommand` of kernelmode/vgpu/control.c that deal with fences and resource
-- handles keep what their steps keep.
use mvisor_win_vgpu_driver.Common.{ℕ, true, List}
use mvisor_win_vgpu_driver.Driver.{Driver, Context}
use mvisor_win_vgpu_driver.Os.{Os}
use mvisor_win_vgpu_driver.Lookup.{update_resource_state}
use mvisor_win_vgpu_driver.Abi.{Execbuffer}
use mvisor_win_vgpu_driver.Control.Submission.{
  reference, wait_in_fence, find_out_fence, next_fence_id, take_fence_id, take_handles,
}
use mvisor_win_vgpu_driver.Control.Triples.{
  Triple, Ends-bind, Ends-return, Ends-leave_with, Ends-call_driver, Ends-update_driver, Ends-if,
  Stays-unless, Stays-read_user_buffer,
}

module _ (os : Os) (I K : Driver → Type 0) (p : (d : Driver) → K d → I d) where
  Stays-reference : (handle : ℕ) → Triple I K (reference os handle) (λ _. K)
  unfolding reference
  Stays-reference handle = Ends-if _ _ _ (Ends-return _ (λ d h. h)) (Ends-leave_with _ p)

  pub Stays-wait_in_fence : (cmd : Execbuffer) → Triple I K (wait_in_fence os cmd) (λ _. K)
  unfolding wait_in_fence
  Stays-wait_in_fence cmd =
      Ends-if _ _ _ (Ends-return _ (λ d h. h))
        (Ends-bind (λ _. K) _ _ (Stays-reference _) (λ fence. Stays-unless K p _ _))

  pub Stays-find_out_fence : (cmd : Execbuffer) → Triple I K (find_out_fence os cmd) (λ _. K)
  unfolding find_out_fence
  Stays-find_out_fence cmd = Ends-if _ _ _ (Ends-return _ (λ d h. h)) (Stays-reference _)

  pub Stays-take_fence_id :
      (fence : ℕ)
      → ((d : Driver) → K d → K (next_fence_id d).1)
      → Triple I K (take_fence_id fence) (λ _. K)
  unfolding take_fence_id
  Stays-take_fence_id fence counted =
      Ends-if _ _ _ (Ends-return _ (λ d h. h)) (Ends-call_driver _ (λ d h. counted d h))

  pub Stays-take_handles :
      (c : Context) (cmd : Execbuffer) (fence : ℕ)
      → ((ids : List ℕ) (n : ℕ) (d : Driver)
          → K d
          → K (update_resource_state c.id ids n true fence d))
      → Triple I K (take_handles os c cmd fence) (λ _. K)
  unfolding take_handles
  Stays-take_handles c cmd fence marked =
      Ends-if _ _ _
        (Ends-bind (λ _. K) _ _ (Stays-read_user_buffer K p os _ _)
          (λ bytes.
            Ends-bind (λ _. K) _ _ (Ends-update_driver _ (λ d h. marked _ _ d h))
              (λ _. Ends-bind (λ _. K) _ _ (Stays-unless K p _ _) (λ _. Ends-return _ (λ d h. h)))))
        (Ends-return _ (λ d h. h))
