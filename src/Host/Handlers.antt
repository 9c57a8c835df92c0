-- ===== src/Host/Handlers.antt =====
-- The handlers of kernelmode/vgpu/control.c that close a resource, transfer to it, submit commands or
-- deal with no resource: their commands are in order for the host.
use mvisor_win_vgpu_driver.Common.{ℕ, ◌≡◌, refl, Bool, true, false, Option, some, List, arith}
use mvisor_win_vgpu_driver.Memory.{MemoryDescriptor}
use mvisor_win_vgpu_driver.Wire.{Command, CtrlType, CtrlHdr, TransferHost3d}
use mvisor_win_vgpu_driver.Driver.{Driver, Context, Resource, Effect}
use mvisor_win_vgpu_driver.Os.{Os}
use mvisor_win_vgpu_driver.Request.{Request}
use mvisor_win_vgpu_driver.Lookup.{
  get_virgl_context_from_list, get_resource_from_list, update_resource_state,
}
use mvisor_win_vgpu_driver.Command.Push.{log_effect, fenced, allocate_command_buffer}
use mvisor_win_vgpu_driver.Command.Send.{submit_command, transfer_host_3d}
use mvisor_win_vgpu_driver.Control.Resources.{ctl_close_resource}
use mvisor_win_vgpu_driver.Control.Submission.{next_fence_id, ctl_submit_command, ctl_transfer_host}
use mvisor_win_vgpu_driver.Control.Triples.{
  Triple, Ends-bind, Ends-return, Ends-non_null, Ends-call_driver, Ends-update_driver,
  Ends-current_context, Ends-before, Current, Stays-retrieve_input, Stays-read_user_buffer,
}
use mvisor_win_vgpu_driver.Control.Steady.{Steady, is_capset_query}
use mvisor_win_vgpu_driver.Control.Steady.Fences.{
  Stays-wait_in_fence, Stays-find_out_fence, Stays-take_fence_id, Stays-take_handles,
}
use mvisor_win_vgpu_driver.Ownership.Commands.{fenced-type, Grows-submit_command}
use mvisor_win_vgpu_driver.Ownership.Deletion.{found_again}
use mvisor_win_vgpu_driver.Host.{HostState, transition}
use mvisor_win_vgpu_driver.Host.Invariant.{empty, holds, seen, view, Follows}
use mvisor_win_vgpu_driver.Host.Sending.{
  Accepting, Follows-keep, send_command-Sends, Follows-create_virgl_context, push_queue-effects,
}
use mvisor_win_vgpu_driver.Host.Quiet.{
  Follows-Quiet, Follows-Quiet_table, Quiet-serve, Quiet-set_share, Quiet-update_resource_state,
}
use mvisor_win_vgpu_driver.Host.Taking.{remove_resource-Follows, found-state, allocate-Follows}
use mvisor_win_vgpu_driver.Host.Steps.{Follows-delete_resource}
use mvisor_win_vgpu_driver.Host.Creation.{Tracked}

-- A resource that is at the host, so that a transfer to it is in order.
abbrev Present : ℕ → Driver → Type 0
Present id d =
    (f : Tracked d) × (transition CtrlType.transfer_to_host_3d (f.table id) ≡ some (f.table id))

view-present : (r : Resource) → transition CtrlType.transfer_to_host_3d (view r) ≡ some (view r)
view-present r = ground arith

fenced-submit :
    (os : Os) (fence : ℕ) (h : CtrlHdr) (s : HostState)
    → h.ctrl_type ≡ CtrlType.submit_3d
    → transition (fenced fence h).ctrl_type s ≡ some s
fenced-submit os fence h s t = rw (fenced-type os fence h, t) refl

query-keeps :
    (c : Command) (s : HostState)
    → is_capset_query c.hdr.ctrl_type ≡ true
    → transition c.hdr.ctrl_type s ≡ some s
query-keeps c s q = ground arith

module _ (os : Os) (accepts : Accepting os) where
  submit_command-Tracked :
      (ctx size n k fence object : ℕ) (m : MemoryDescriptor) (ids : Option (List ℕ)) (d : Driver)
      → Tracked d
      → Tracked (submit_command os ctx m size n ids k fence object d).1
  unfolding submit_command allocate_command_buffer
  submit_command-Tracked ctx size n k fence object m ids d f =
      let (b, is, g) = Grows-submit_command os ctx m size n ids k fence object d in
      Follows-keep 0 _ empty d _ f
        (record {
          logged = push_queue-effects os accepts _ _ _ 0 _ d;
          idrs = g.idrs;
          light = λ i s. omega (arith, g.light (seen i s));
        })
        (fenced-submit os fence _ _ refl)

  transfer-Tracked :
      (ctx : ℕ) (t : TransferHost3d) (to_host : Bool) (d : Driver)
      → Present t.resource_id d
      → Tracked (transfer_host_3d os ctx t 0 to_host d)
  unfolding transfer_host_3d
  transfer-Tracked ctx t true d (f, there) =
      Follows-keep _ _ empty d _ f (send_command-Sends os accepts _ _ _ _ d) there
  transfer-Tracked ctx t false d (f, there) =
      Follows-keep _ _ empty d _ f (send_command-Sends os accepts _ _ _ _ d) there

  query-Tracked :
      (c : Command) (d : Driver)
      → is_capset_query c.hdr.ctrl_type ≡ true
      → Tracked d
      → Tracked (log_effect (Effect.push 1 c) d)
  query-Tracked c d q f =
      Follows-keep 1 c empty d _ f
        (record { logged = refl; idrs = refl; light = λ i s. omega arith }) (query-keeps c _ q)

  -- The steps of the handlers that wait, ask for the capsets or open a context.
  pub Tracked-Steady : Steady os Tracked
  Tracked-Steady = record {
    waited = λ d f. Follows-Quiet empty d _ (Quiet-serve os os.interrupts d) f;
    shared = λ id s d f. Follows-Quiet empty d _ (Quiet-set_share os.process_id id s d) f;
    queried = query-Tracked;
    stored = λ c d f. record {
      table = f.table;
      in_order = f.in_order;
      agrees = f.agrees;
      unknown = f.unknown;
    };
    inserted = λ d free f. record {
      table = f.table;
      in_order = f.in_order;
      agrees = λ i s. omega (arith, f.agrees i s);
      unknown = f.unknown;
    };
    created = λ init d f. Follows-create_virgl_context os accepts os.process_id init empty d f;
  }

  -- The resource of a handle in the context of the calling process.
  abbrev Found : Context → ℕ → Resource → Driver → Type 0
  Found c handle r d =
      Tracked d
      × (get_virgl_context_from_list os.process_id d ≡ some c)
      × (get_resource_from_list handle c ≡ some r)

  pub close_resource-Ends :
      (request : Request) → Triple Tracked Tracked (ctl_close_resource os request) (λ _. Tracked)
  unfolding ctl_close_resource
  close_resource-Ends request =
      Ends-bind (λ _. Tracked) _ _ (Stays-retrieve_input Tracked (λ d h. h) request _)
        (λ status.
          Ends-bind (Current Tracked (λ d h. h) os) _ _ (Ends-current_context Tracked (λ d h. h) os)
            (λ c.
              Ends-bind (Found c _) _ _ (Ends-non_null _ _ (λ d h. h.0) (λ r d e h. (h.0, h.1, e)))
                (λ r.
                  Ends-bind (λ _. Follows (holds r.id (view r) empty)) _ _
                    (Ends-update_driver _ (λ d h.
                      remove_resource-Follows c.id _ c r empty d (found_again os.process_id c d h.1)
                        h.2 h.0))
                    (λ _.
                      Ends-bind (λ _. Tracked) _ _
                        (Ends-update_driver _
                          (λ d f. Follows-delete_resource os accepts c.id r empty d f))
                        (λ _. Ends-return _ (λ d h. h))))))

  Found-Present :
      (c : Context) (handle : ℕ) (r : Resource) (d : Driver) → Found c handle r d → Present r.id d
  Found-Present c handle r d (f, at, there) =
      let is = found-state c.id handle c r empty d f (found_again os.process_id c d at) there in
      (f, rw is (view-present r))

  busy-Present :
      (ctx id : ℕ) (ids : List ℕ) (n : ℕ) (busy : Bool) (fence : ℕ) (d : Driver)
      → Present id d
      → Present id (update_resource_state ctx ids n busy fence d)
  busy-Present ctx id ids n busy fence d (f, there) =
      let q = Quiet-update_resource_state ctx ids n busy fence d in
      (Follows-Quiet empty d _ q f, rw (Follows-Quiet_table empty d _ q f) there)

  pub transfer_host-Ends :
      (to_host : Bool) (request : Request)
      → Triple Tracked Tracked (ctl_transfer_host os to_host request) (λ _. Tracked)
  unfolding ctl_transfer_host
  transfer_host-Ends to_host request =
      Ends-bind (λ _. Tracked) _ _ (Stays-retrieve_input Tracked (λ d h. h) request _)
        (λ status.
          Ends-bind (Current Tracked (λ d h. h) os) _ _ (Ends-current_context Tracked (λ d h. h) os)
            (λ c.
              Ends-bind (λ r. Present r.id) _ _
                (Ends-non_null _ _ (λ d h. h.0) (λ r d e h. Found-Present c _ r d (h.0, h.1, e)))
                (λ r.
                  Ends-bind (λ _. Present r.id) _ _
                    (Ends-update_driver _ (λ d h. busy-Present c.id _ _ 1 true 0 d h))
                    (λ _.
                      Ends-bind (λ _. Tracked) _ _
                        (Ends-update_driver _ (λ d h. transfer-Tracked c.id _ to_host d h))
                        (λ _. Ends-return _ (λ d h. h))))))

  next_fence-Tracked : (d : Driver) → Tracked d → Tracked (next_fence_id d).1
  unfolding next_fence_id
  next_fence-Tracked d f = record {
    table = f.table;
    in_order = f.in_order;
    agrees = f.agrees;
    unknown = f.unknown;
  }

  pub submit_command-Ends :
      (request : Request) → Triple Tracked Tracked (ctl_submit_command os request) (λ _. Tracked)
  unfolding ctl_submit_command
  submit_command-Ends request =
      let here : (d : Driver) → Tracked d → Tracked d = λ d h. h in
      Ends-bind (λ _. Tracked) _ _ (Stays-retrieve_input Tracked here request _)
        (λ _. Ends-bind (Current Tracked here os) _ _ (Ends-current_context Tracked here os) (λ c.
          Ends-before _ _ (λ d h. h.0)
            (Ends-bind (λ _. Tracked) _ _ (Stays-wait_in_fence os Tracked Tracked here _)
              (λ _.
                Ends-bind (λ _. Tracked) _ _ (Stays-find_out_fence os Tracked Tracked here _)
                  (λ out_fence.
                    Ends-bind (λ _. Tracked) _ _ (Stays-read_user_buffer Tracked here os _ _)
                      (λ _.
                        Ends-bind (λ _. Tracked) _ _
                          (Ends-call_driver _ (λ d f. allocate-Follows os _ empty d f))
                          (λ found.
                            Ends-bind (λ _. Tracked) _ _ (Ends-non_null found _ here (λ m d e f. f))
                              (λ m.
                                Ends-bind (λ _. Tracked) _ _
                                  (Stays-take_fence_id os Tracked Tracked here out_fence
                                    next_fence-Tracked)
                                  (λ fence.
                                    Ends-bind (λ _. Tracked) _ _
                                      (Stays-take_handles os Tracked Tracked here c _ fence
                                        (λ ids n d f.
                                          Follows-Quiet empty d _
                                            (Quiet-update_resource_state c.id ids n true fence d)
                                            f))
                                      (λ ids. Ends-call_driver _ (λ d f.
                                        submit_command-Tracked c.id _ _ _ fence out_fence m ids d
                                          f)))))))))))
