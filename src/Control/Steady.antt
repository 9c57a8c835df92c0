-- ===== src/Control/Steady.antt =====
-- The handlers of kernelmode/vgpu/control.c that wait, share a resource or open a context keep
-- whatever the steps that they are made of keep.

pub mod Queries
pub mod Fences
use mvisor_win_vgpu_driver.Common.{
  arith, Option, ℕ, ◌≡◌, Bool, true, false, none, some, List, [], ◌∷◌, Bool-cases, inl, inr,
}
use mvisor_win_vgpu_driver.Wire.{Command, CtrlType}
use mvisor_win_vgpu_driver.Driver.{Driver, Context, Resource, ShareDescriptor, Effect, Capsets}
use mvisor_win_vgpu_driver.Os.{Os, Interrupt}
use mvisor_win_vgpu_driver.Exec.{Result, ok, leave, blocked}
use mvisor_win_vgpu_driver.Request.{Request}
use mvisor_win_vgpu_driver.Lookup.{
  get_virgl_context_from_list, get_resource_from_list, modify_context, write_resource,
  found_context-id,
}
use mvisor_win_vgpu_driver.Interrupt.{interrupt_dpc, serve}
use mvisor_win_vgpu_driver.Command.Push.{log_effect}
use mvisor_win_vgpu_driver.Command.Send.{create_virgl_context}
use mvisor_win_vgpu_driver.Control.Contexts.{is_none, ctl_init_virgl_context, insert_context}
use mvisor_win_vgpu_driver.Control.Waiting.{
  wait_in_io, ctl_wait, share_resource, ctl_map, current_resource, set_share,
}
use mvisor_win_vgpu_driver.Control.Triples.{
  Triple, TripleAt, Ends-bind, Ends-return, Ends-leave_with, Ends-non_null, Ends-update_driver,
  Ends-if, Ends-guard, Ends-current_context, Ends-get_driver, Ends-before, Ends-fact, Current,
  Stays-retrieve_input, Stays-retrieve_output, Stays-write_output, Stays-unless,
  Stays-read_user_buffer,
}

abbrev pub is_capset_query : CtrlType → Bool
is_capset_query CtrlType.get_capset_info = true
is_capset_query CtrlType.get_capset = true
is_capset_query _ = false

-- The steps: an interrupt while a handler waits, a write to the share of a resource, a query that
-- the device has answered, a write to the capsets, and a new context and its command.
pub record Steady (os : Os) (I : Driver → Type 0) : Type 0 where
  pub waited : (d : Driver) → I d → I (serve os os.interrupts d)
  pub shared :
      (id : ℕ) (s : ShareDescriptor) (d : Driver)
      → I d
      → I (modify_context os.process_id (write_resource id (set_share s)) d)
  pub queried :
      (c : Command) (d : Driver)
      → is_capset_query c.hdr.ctrl_type ≡ true
      → I d
      → I (log_effect (Effect.push 1 c) d)
  pub stored : (c : Capsets) (d : Driver) → I d → I (record d { capsets = c })
  pub inserted :
      (d : Driver)
      → get_virgl_context_from_list os.process_id d ≡ none
      → I d
      → I (insert_context os.process_id d)
  pub created : (init : ℕ) (d : Driver) → I d → I (create_virgl_context os os.process_id init d)

module _ (os : Os) (I : Driver → Type 0)
    (interrupted : (i : Interrupt) (d : Driver) → I d → I (interrupt_dpc os none i d)) where
  -- A wait keeps what each interrupt that it serves keeps.
  pub serve-kept : (is : List Interrupt) (d : Driver) → I d → I (serve os is d)
  unfolding serve
  serve-kept [] d h = h
  serve-kept (i ∷ is) d h = serve-kept is (interrupt_dpc os none i d) (interrupted i d h)

is_none-none : (found : Option Context) → is_none found ≡ true → found ≡ none
is_none-none found e = ground arith

module _ (os : Os) (I : Driver → Type 0) (steady : Steady os I) where
  however : {A : Type 0} (r : Result A) (d : Driver) → I d → TripleAt I (λ _. I) r d
  however (ok a) d h = h
  however (leave status) d h = h
  however blocked d h = h

  Ends-wait : (ctx id : ℕ) → Triple I I (wait_in_io os ctx id) (λ _. I)
  Ends-wait ctx id = record { at = λ s h. however _ _ (steady.waited s.driver h) }

  abbrev Here : Context → Driver → Type 0
  Here = Current I (λ d h. h) os

  pub wait-Ends : (request : Request) → Triple I I (ctl_wait os request) (λ _. I)
  unfolding ctl_wait
  wait-Ends request =
      Ends-bind (λ _. I) _ _ (Stays-retrieve_input I (λ d h. h) request _)
        (λ _.
          Ends-bind (λ _. I) _ _ (Stays-retrieve_output I (λ d h. h) request _)
            (λ status. Ends-bind Here _ _ (Ends-current_context I (λ d h. h) os) (λ c.
              Ends-bind (λ _. I) _ _ (Ends-non_null _ _ (λ d h. h.0) (λ r d e h. h.0))
                (λ r.
                  Ends-if _ _ _
                    (Ends-bind (λ _. I) _ _ (Ends-wait _ _)
                      (λ waited.
                        Ends-bind (λ _. I) _ _ (Stays-write_output I _)
                          (λ _. Ends-return _ (λ d h. h))))
                    (Ends-bind (λ _. I) _ _ (Stays-write_output I _)
                      (λ _. Ends-return _ (λ d h. h)))))))

  -- The resource is one of the context of the calling process.
  share_resource-Ends :
      (ctx id : ℕ) (r : Resource)
      → ctx ≡ os.process_id
      → Triple I I (share_resource os ctx id r) (λ _. I)
  unfolding share_resource
  share_resource-Ends ctx id r mine =
      Ends-if _ _ _
        (Ends-bind (λ _. I) _ _ (Ends-update_driver _ (λ d o. rw mine (steady.shared id _ d o)))
          (λ _. Stays-write_output I _))
        (Ends-bind (λ _. I) _ _ (Ends-update_driver _ (λ d o. rw mine (steady.shared id _ d o)))
          (λ _. Ends-leave_with _ (λ d h. h)))

  pub map-Ends : (request : Request) → Triple I I (ctl_map os request) (λ _. I)
  unfolding ctl_map
  map-Ends request =
      Ends-bind (λ _. I) _ _ (Stays-retrieve_input I (λ d h. h) request _)
        (λ _.
          Ends-bind (λ _. I) _ _ (Stays-retrieve_output I (λ d h. h) request _)
            (λ status. Ends-bind Here _ _ (Ends-current_context I (λ d h. h) os) (λ c.
              Ends-before _ _ (λ d h. (found_context-id os.process_id d c h.1, h.0))
                (Ends-fact _ (λ mine.
                  Ends-bind (λ _. I) _ _ (Ends-non_null _ _ (λ d h. h) (λ r d e h. h))
                    (λ r.
                      Ends-bind (λ _. I) _ _ (Stays-unless I (λ d h. h) _ _)
                        (λ _.
                          Ends-bind (λ _. I) _ _
                            (Ends-if _ _ _
                              (Ends-bind (λ _. I) _ _ (Ends-wait _ _)
                                (λ _.
                                  Ends-bind (λ a d. (a ≡ d) × I d) _ _ (Ends-get_driver I)
                                    (λ d.
                                      Ends-before _ _ (λ x h. h.1)
                                        (share_resource-Ends c.id _ _ mine))))
                              (Stays-write_output I _))
                            (λ _. Ends-return _ (λ d h. h)))))))))

  -- A process that has no context yet.
  abbrev Without : Driver → Type 0
  Without d = I d × (get_virgl_context_from_list os.process_id d ≡ none)

  -- `CtlInitVirglContext`
  pub init_context-Ends :
      (request : Request) → Triple I I (ctl_init_virgl_context os request) (λ _. I)
  unfolding ctl_init_virgl_context
  init_context-Ends request =
      let weaker : (d : Driver) → Without d → I d = λ d h. h.0 in
      Ends-bind (λ a d. (a ≡ d) × I d) _ _ (Ends-get_driver I)
        (λ a.
          Ends-bind (λ _. Without) _ _
            (Ends-guard _ _ (λ d h. h.1) (λ d free h. (h.1, rw⁻¹ h.0 (is_none-none _ free))))
            (λ _.
              Ends-bind (λ _. Without) _ _ (Stays-retrieve_input Without weaker request _)
                (λ _.
                  Ends-bind (λ _. Without) _ _ (Stays-read_user_buffer Without weaker os _ _)
                    (λ read.
                      Ends-bind (λ _. Without) _ _ (Stays-unless Without weaker _ _)
                        (λ _.
                          Ends-bind (λ _. Without) _ _ (Stays-unless Without weaker _ _)
                            (λ _.
                              Ends-bind (λ _. I) _ _
                                (Ends-update_driver _ (λ d h. steady.inserted d h.1 h.0))
                                (λ _.
                                  Ends-bind (λ _. I) _ _
                                    (Ends-update_driver _ (λ d h. steady.created _ d h))
                                    (λ _. Ends-return _ (λ d h. h)))))))))
