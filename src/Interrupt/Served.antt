-- ===== src/Interrupt/Served.antt =====
-- The deferred procedure call of kernelmode/vgpu/vgpu.c, and waits that serve it: what holds of each
-- of its steps holds from the start to the end.
use mvisor_win_vgpu_driver.Common.{
  ℕ, zero, suc, ◌≡◌, Bool, true, false, Option, some, none, List, [], ◌∷◌, ◌==◌, ltb, Option-cases,
  inl, inr, get_elem?, remove_at, if◌then◌else◌,
}
use mvisor_win_vgpu_driver.Wire.{CtrlType}
use mvisor_win_vgpu_driver.Driver.{Driver, VgpuBuffer, Effect, null}
use mvisor_win_vgpu_driver.Os.{Os, Interrupt, Completion}
use mvisor_win_vgpu_driver.Lookup.{modify_context, write_resource, update_resource_state}
use mvisor_win_vgpu_driver.Command.Push.{
  Queue, command_queue, control_queue, outstanding, set_outstanding, log_effect,
}
use mvisor_win_vgpu_driver.Interrupt.{
  set_mapping, map_blob_resource_callback, release_handles, free_memory, finish_submit, dispatch,
  read_from_queue, read_nth_queue, read_queues, interrupt_dpc, serve,
}

-- A relation between the driver before and after: that of no step and of two steps, the mapping of a
-- blob, resources that become idle, a fence, memory that is freed, and a buffer that is returned.
pub record Served (os : Os) (R : Driver → Driver → Type 0) : Type 0 where
  pub none_done : (d : Driver) → R d d
  pub both : (a b c : Driver) → R a b → R b c → R a c
  pub mapped :
      (ctx id address size : ℕ) (d : Driver)
      → R d (modify_context ctx (write_resource id (set_mapping address size)) d)
  pub marked :
      (ctx : ℕ) (ids : List ℕ) (n fence : ℕ) (d : Driver)
      → R d (update_resource_state ctx ids n false fence d)
  pub signalled : (object : ℕ) (d : Driver) → R d (log_effect (Effect.set_fence_event object) d)
  pub freed : (va size : ℕ) (d : Driver) → R d (free_memory os va size d)
  pub taken :
      (w : Queue) (i : ℕ) (b : VgpuBuffer) (d : Driver)
      → get_elem? (outstanding w d) i ≡ some b
      → R d (set_outstanding w (remove_at (outstanding w d) i) d)

module _ (os : Os) (R : Driver → Driver → Type 0) (s : Served os R) where
  either : (b : Bool) (d x y : Driver) → R d x → R d y → R d (if b then x else y)
  either true d x y h k = h
  either false d x y h k = k

  map_callback-served :
      (ctx id gpa size : ℕ) (d : Driver) → R d (map_blob_resource_callback os ctx id gpa size d)
  unfolding map_blob_resource_callback
  map_callback-served ctx id gpa size d =
      either (os.map_io_space gpa size == null) d _ _ (s.none_done d) (s.mapped ctx id _ size d)

  release_handles-served :
      (ids : Option (List ℕ)) (b : VgpuBuffer) (d : Driver) → R d (release_handles os ids b d)
  release_handles-served none b d = s.none_done d
  release_handles-served (some ids) b d = s.marked _ ids _ _ d

  finish_submit-served : (b : VgpuBuffer) (d : Driver) → R d (finish_submit os b d)
  unfolding finish_submit
  finish_submit-served b d =
      let e = release_handles os b.resource_ids b d in
      s.both d e _ (release_handles-served b.resource_ids b d) (
        s.both e _ _
          (either (b.fence_object == null) e _ _ (s.none_done e) (s.signalled b.fence_object e))
          (s.freed _ _ _))

  dispatch-served :
      (t : CtrlType) (b : VgpuBuffer) (c : Completion) (d : Driver) → R d (dispatch os t b c d)
  unfolding dispatch
  dispatch-served CtrlType.submit_3d b c d = finish_submit-served b d
  dispatch-served CtrlType.resource_map_blob b c d = map_callback-served _ _ c.gpa c.size d
  dispatch-served CtrlType.transfer_to_host_3d b c d = s.marked _ _ 1 _ d
  dispatch-served CtrlType.transfer_from_host_3d b c d = s.marked _ _ 1 _ d
  dispatch-served _ b c d = s.none_done d

  read_from_queue-served :
      (w : Queue) (cs : List Completion) (d : Driver) → R d (read_from_queue os w cs d)
  unfolding read_from_queue
  read_from_queue-served w [] d = s.none_done d
  read_from_queue-served w (c ∷ cs) d = elim (Option-cases (get_elem? (outstanding w d) c.index)) [
    | inl gone ↦ rw (gone, read_from_queue) (s.none_done d)
    | inr (b, at) ↦
        let rest = set_outstanding w (remove_at (outstanding w d) c.index) d in
        rw (at, read_from_queue)
          (s.both d rest _ (s.taken w c.index b d at) (
            s.both rest _ _ (dispatch-served b.command.hdr.ctrl_type b c rest)
              (read_from_queue-served w cs _)))
  ]

  read_nth_queue-served : (n : ℕ) (i : Interrupt) (d : Driver) → R d (read_nth_queue os n i d)
  read_nth_queue-served zero i d = read_from_queue-served command_queue i.on_command_queue d
  read_nth_queue-served (suc zero) i d = read_from_queue-served control_queue i.on_control_queue d
  read_nth_queue-served (suc (suc n)) i d = s.none_done d

  read_queues-served : (n : ℕ) (i : Interrupt) (d : Driver) → R d (read_queues os n i d)
  read_queues-served zero i d = s.none_done d
  read_queues-served (suc n) i d =
      s.both d _ _ (read_queues-served n i d) (read_nth_queue-served n i _)

  pub interrupt_dpc-served :
      (message : Option ℕ) (i : Interrupt) (d : Driver) → R d (interrupt_dpc os message i d)
  unfolding interrupt_dpc
  interrupt_dpc-served none i d = read_queues-served d.num_virt_queues i d
  interrupt_dpc-served (some n) i d =
      either (ltb n d.num_virt_queues) d _ _ (read_nth_queue-served n i d)
        (read_queues-served d.num_virt_queues i d)

  pub serve-served : (is : List Interrupt) (d : Driver) → R d (serve os is d)
  unfolding serve
  serve-served [] d = s.none_done d
  serve-served (i ∷ is) d =
      s.both d (interrupt_dpc os none i d) _ (interrupt_dpc-served none i d)
        (serve-served is (interrupt_dpc os none i d))
