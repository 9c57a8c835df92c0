-- ===== src/Isolation/Dispatch.antt =====
-- The dispatch of kernelmode/vgpu/vgpu.c: the context of another process stays as it is.
use mvisor_win_vgpu_driver.Common.{ℕ, ◌≡◌, ◌≢◌, refl, ◌∙◌, ap, Option, []}
use mvisor_win_vgpu_driver.Driver.{Driver, Context}
use mvisor_win_vgpu_driver.Os.{Os}
use mvisor_win_vgpu_driver.Request.{Request}
use mvisor_win_vgpu_driver.Lookup.{get_virgl_context_from_list}
use mvisor_win_vgpu_driver.Interrupt.{serve}
use mvisor_win_vgpu_driver.Ioctl.{io_control}
use mvisor_win_vgpu_driver.Ioctl.Kept.{io_control-kept}
use mvisor_win_vgpu_driver.Ioctl.OfContexts.Handlers.{OfContexts-Kept}
use mvisor_win_vgpu_driver.Isolation.{Looks, Looks-OfContexts}

abbrev all_of_it : Option Context → Option Context
all_of_it found = found

module _ (os : Os) (q : ℕ) (other : os.process_id ≢ q) (quiet : os.interrupts ≡ []) where
  serve-quiet : (d : Driver) → serve os os.interrupts d ≡ d
  unfolding serve
  serve-quiet d = rw quiet refl

  -- A request of a process leaves the context of every other process as it is, its resources
  -- included, whatever the request is and wherever its handler ends, while no interrupt comes.
  pub io_control-Spares :
      (request : Request) (code : ℕ) (d : Driver)
      → get_virgl_context_from_list q (io_control os request code d).1
        ≡ get_virgl_context_from_list q d
  io_control-Spares request code d =
      let as_it_is = Looks all_of_it q (get_virgl_context_from_list q d) in
      io_control-kept os as_it_is as_it_is
        (OfContexts-Kept os as_it_is (
          Looks-OfContexts all_of_it q _ os other
            (λ x e. ap (get_virgl_context_from_list q) (serve-quiet x) ∙ e)))
        request code d refl
