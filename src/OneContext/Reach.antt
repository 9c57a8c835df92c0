-- ===== src/OneContext/Reach.antt =====
-- Requests, interrupts and ends of processes in kernelmode/vgpu/vgpu.c: a process has at most one
-- context.
use mvisor_win_vgpu_driver.Common.{
  ℕ, ◌≤◌, ◌≡◌, refl, sym, Bool, false, none, List, [], ◌∷◌, arith, Option-cases, inl, inr,
}
use mvisor_win_vgpu_driver.Memory.Bitmap.{Rtl}
use mvisor_win_vgpu_driver.Driver.{Driver, Context, status_success}
use mvisor_win_vgpu_driver.Os.{Os}
use mvisor_win_vgpu_driver.Request.{Request}
use mvisor_win_vgpu_driver.Lookup.{get_virgl_context_from_list, modify_context, found_context-id}
use mvisor_win_vgpu_driver.Interrupt.{interrupt_dpc, serve}
use mvisor_win_vgpu_driver.Ioctl.{io_control}
use mvisor_win_vgpu_driver.Device.{process_notify, Hardware, prepare_hardware}
use mvisor_win_vgpu_driver.Ownership.Reach.Events.{Event, request, interrupt, process, happen, run}
use mvisor_win_vgpu_driver.Control.Contexts.{remove_context, ctl_destroy_virgl_context}
use mvisor_win_vgpu_driver.Ioctl.Alone.{Alone, destroy-Alone}
use mvisor_win_vgpu_driver.Ioctl.Kept.{io_control-kept, process_notify-kept}
use mvisor_win_vgpu_driver.Ioctl.OfContexts.{OfContexts}
use mvisor_win_vgpu_driver.Ioctl.OfContexts.Handlers.{OfContexts-Kept}
use mvisor_win_vgpu_driver.OneContext.{
  opened, OneEach, OneEach-Same, Same-modify_context, OneEach-insert_context,
  OneEach-remove_context, remove_context-none,
}
use mvisor_win_vgpu_driver.OneContext.Interrupts.{Same-interrupt_dpc, Same-serve}

OneEach-Alone : (d d' : Driver) → Alone d d' → OneEach d → OneEach d'
OneEach-Alone d d' same one = λ q. rw same (one q)

module _ (os : Os) where
  OneEach-OfContexts : OfContexts os OneEach
  OneEach-OfContexts = record {
    elsewhere = OneEach-Alone;
    edited = λ f d keep one.
        OneEach-Same d (modify_context os.process_id f d)
          (Same-modify_context os.process_id f d keep) one;
    inserted = OneEach-insert_context os.process_id;
    removed = OneEach-remove_context os.process_id;
    waited = λ d one. OneEach-Same d (serve os os.interrupts d) (Same-serve os os.interrupts d) one;
  }

  io_control-OneEach :
      (r : Request) (code : ℕ) (d : Driver) → OneEach d → OneEach (io_control os r code d).1
  io_control-OneEach r code d one =
      io_control-kept os OneEach OneEach (OfContexts-Kept os OneEach OneEach-OfContexts) r code d
        one

  OneEach-destroy :
      (c : Context) (d : Driver) → OneEach d → OneEach (ctl_destroy_virgl_context os c d).1
  OneEach-destroy c d one =
      OneEach-Alone (remove_context c.id d) (ctl_destroy_virgl_context os c d).1
        (destroy-Alone os c d) (OneEach-remove_context c.id d one)

  destroy-none :
      (c : Context) (d : Driver)
      → opened c.id d.contexts ≤ 1
      → get_virgl_context_from_list c.id (ctl_destroy_virgl_context os c d).1 ≡ none
  unfolding get_virgl_context_from_list
  destroy-none c d one = rw (destroy-Alone os c d) (remove_context-none c.id d one)

  process_notify-OneEach :
      (id : ℕ) (create : Bool) (d : Driver) → OneEach d → OneEach (process_notify os id create d)
  process_notify-OneEach id create d one =
      process_notify-kept os OneEach id (λ c x at h. OneEach-destroy c x h) create d one

  -- A process that ends leaves no context behind, if it has at most one.
  pub process_notify_closes :
      (id : ℕ) (d : Driver)
      → opened id d.contexts ≤ 1
      → get_virgl_context_from_list id (process_notify os id false d) ≡ none
  unfolding process_notify
  process_notify_closes id d one = elim (Option-cases (get_virgl_context_from_list id d)) [
    | inl none_there ↦ rw (none_there, none_there) refl
    | inr (c, e) ↦
        rw (e, sym (found_context-id id d c e))
          (destroy-none c d (rw (found_context-id id d c e) one))
  ]

module _ (rtl : Rtl) where
  happen-OneEach : (e : Event) (d : Driver) → OneEach d → OneEach (happen rtl e d)
  happen-OneEach (request os r code) d one =
      io_control-OneEach (record os { rtl = rtl }) r code d one
  happen-OneEach (interrupt os message i) d one =
      OneEach-Same d (interrupt_dpc (record os { rtl = rtl }) message i d)
        (Same-interrupt_dpc (record os { rtl = rtl }) message i d) one
  happen-OneEach (process os id create) d one =
      process_notify-OneEach (record os { rtl = rtl }) id create d one

  pub run-OneEach : (es : List Event) (d : Driver) → OneEach d → OneEach (run rtl es d)
  run-OneEach [] d one = one
  run-OneEach (e ∷ es) d one = run-OneEach es (happen rtl e d) (happen-OneEach e d one)

  prepare_hardware-contexts :
      (h : Hardware) (d : Driver)
      → (prepare_hardware h d).0 ≡ status_success
      → (prepare_hardware h d).1.contexts ≡ []
  unfolding prepare_hardware
  prepare_hardware-contexts h d done = ground arith

  -- In any history of requests, interrupts and process ends after the hardware was prepared, no
  -- process has two contexts.
  pub run-opened :
      (h : Hardware) (d : Driver) (es : List Event)
      → (prepare_hardware h d).0 ≡ status_success
      → (q : ℕ) → opened q (run rtl es (prepare_hardware h d).1).contexts ≤ 1
  run-opened h d es done =
      run-OneEach es (prepare_hardware h d).1
        (λ q. rw (prepare_hardware-contexts h d done) (omega arith))
