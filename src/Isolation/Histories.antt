-- ===== src/Isolation/Histories.antt =====
-- Histories of kernelmode/vgpu in which a process takes no part: what it has stays as it is.
use mvisor_win_vgpu_driver.Common.{ℕ, ◌≡◌, ◌≢◌, refl, ◌∙◌, none, List, [], ◌∷◌}
use mvisor_win_vgpu_driver.Memory.Bitmap.{Rtl}
use mvisor_win_vgpu_driver.Driver.{Driver}
use mvisor_win_vgpu_driver.Os.{Os}
use mvisor_win_vgpu_driver.Request.{Request}
use mvisor_win_vgpu_driver.Control.Steady.{serve-kept}
use mvisor_win_vgpu_driver.Ioctl.{io_control}
use mvisor_win_vgpu_driver.Ioctl.Kept.{io_control-kept}
use mvisor_win_vgpu_driver.Ioctl.OfContexts.Handlers.{OfContexts-Kept}
use mvisor_win_vgpu_driver.Ownership.Reach.Events.{Event, request, interrupt, process, run}
use mvisor_win_vgpu_driver.Isolation.{Looks, Looks-OfContexts, process_notify-Looks}
use mvisor_win_vgpu_driver.Isolation.Outline.{sketch, sketch_of, interrupt_dpc-Sketched}

io_control-Sketched :
    (os : Os) (q : ℕ) (r : Request) (code : ℕ) (d : Driver)
    → os.process_id ≢ q
    → sketch_of q (io_control os r code d).1 ≡ sketch_of q d
io_control-Sketched os q r code d other =
    let as_it_is = Looks sketch q (sketch_of q d) in
    io_control-kept os as_it_is as_it_is
      (OfContexts-Kept os as_it_is (
        Looks-OfContexts sketch q _ os other (λ x e.
          serve-kept os as_it_is (λ i y h. interrupt_dpc-Sketched os q none i y ∙ h) os.interrupts x
            e)))
      r code d refl

-- No event is a request of the process, its start or its end.
abbrev pub Others : ℕ → List Event → Type 0
Others q [] = Unit
Others q (request os r code ∷ es) = (os.process_id ≢ q) × Others q es
Others q (interrupt os message i ∷ es) = Others q es
Others q (process os id create ∷ es) = (id ≢ q) × Others q es

-- In any history of requests and ends of other processes and of interrupts, a process keeps its
-- context, if it has one, and the context its resources in their order, each with its identifier,
-- whether it has a buffer and is a blob, and its mapping for the process.
pub run-Sketched :
    (q : ℕ) (rtl : Rtl) (es : List Event) (d : Driver)
    → Others q es
    → sketch_of q (run rtl es d) ≡ sketch_of q d
run-Sketched q rtl [] d h = refl
run-Sketched q rtl (request os r code ∷ es) d h =
    run-Sketched q rtl es _ h.1 ∙ io_control-Sketched (record os { rtl = rtl }) q r code d h.0
run-Sketched q rtl (interrupt os message i ∷ es) d h =
    run-Sketched q rtl es _ h ∙ interrupt_dpc-Sketched (record os { rtl = rtl }) q message i d
run-Sketched q rtl (process os id create ∷ es) d h =
    run-Sketched q rtl es _ h.1
    ∙ process_notify-Looks sketch q (sketch_of q d) (record os { rtl = rtl }) id create d h.0 refl
