-- ===== src/OneContext/Interrupts.antt =====
-- The interrupts of kernelmode/vgpu/vgpu.c open no context and close none.
use mvisor_win_vgpu_driver.Common.{ℕ, refl, ◌∙◌, false, Option, List}
use mvisor_win_vgpu_driver.Driver.{Driver, VgpuBuffer}
use mvisor_win_vgpu_driver.Os.{Os, Interrupt}
use mvisor_win_vgpu_driver.Command.Push.{Queue, command_queue, control_queue, set_outstanding}
use mvisor_win_vgpu_driver.Interrupt.{interrupt_dpc, serve}
use mvisor_win_vgpu_driver.Interrupt.Served.{Served, interrupt_dpc-served, serve-served}
use mvisor_win_vgpu_driver.Lookup.{update_resource_state}
use mvisor_win_vgpu_driver.Ioctl.OfContexts.{update_resources-id}
use mvisor_win_vgpu_driver.OneContext.{Same, Same-modify_context}

Same-update_resource_state :
    (ctx : ℕ) (ids : List ℕ) (n fence : ℕ) (d : Driver)
    → Same d (update_resource_state ctx ids n false fence d)
unfolding update_resource_state
Same-update_resource_state ctx ids n fence d =
    Same-modify_context ctx _ d (update_resources-id _ false fence)

Same-set_outstanding :
    (w : Queue) (bs : List VgpuBuffer) (d : Driver) → Same d (set_outstanding w bs d)
Same-set_outstanding command_queue bs d = λ q. refl
Same-set_outstanding control_queue bs d = λ q. refl

Same-Served : (os : Os) → Served os Same
Same-Served os = record {
  none_done = λ d q. refl;
  both = λ a b c h k q. k q ∙ h q;
  mapped = λ ctx id address size d. Same-modify_context ctx _ d (λ c. refl);
  marked = Same-update_resource_state;
  signalled = λ object d q. refl;
  freed = λ va size d q. refl;
  taken = λ w i b d at. Same-set_outstanding w _ d;
}

module _ (os : Os) where
  pub Same-interrupt_dpc :
      (message : Option ℕ) (i : Interrupt) (d : Driver) → Same d (interrupt_dpc os message i d)
  Same-interrupt_dpc message i d = interrupt_dpc-served os Same (Same-Served os) message i d

  pub Same-serve : (is : List Interrupt) (d : Driver) → Same d (serve os is d)
  Same-serve is d = serve-served os Same (Same-Served os) is d
