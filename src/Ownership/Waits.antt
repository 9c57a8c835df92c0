-- ===== src/Ownership/Waits.antt =====
-- The handlers of kernelmode/vgpu/control.c that close a resource or transfer to it keep the
-- invariant, and so do the steps of those that wait, ask for capsets or open a context.
use mvisor_win_vgpu_driver.Common.{ℕ, ◌+◌, ◌≡◌, refl, Bool, true, arith, none, some}
use mvisor_win_vgpu_driver.Memory.Bitmap.{RtlLaws}
use mvisor_win_vgpu_driver.Driver.{Driver, Context, Capsets, Resource}
use mvisor_win_vgpu_driver.Os.{Os}
use mvisor_win_vgpu_driver.Request.{Request}
use mvisor_win_vgpu_driver.Lookup.{get_virgl_context_from_list, get_resource_from_list}
use mvisor_win_vgpu_driver.Control.Resources.{ctl_close_resource}
use mvisor_win_vgpu_driver.Control.Submission.{ctl_transfer_host}
use mvisor_win_vgpu_driver.Ownership.Totals.{Calm, Calm-update_resource_state, Calm-set_share}
use mvisor_win_vgpu_driver.Control.Contexts.{insert_context}
use mvisor_win_vgpu_driver.Control.Steady.{Steady, serve-kept}
use mvisor_win_vgpu_driver.Ownership.Commands.{Calm-transfer_host_3d, Calm-create_virgl_context}
use mvisor_win_vgpu_driver.Ownership.Invariant.{Owned, nothing, resource_weight, Owned-Calm}
use mvisor_win_vgpu_driver.Ownership.Taking.{remove_resource-Owned}
use mvisor_win_vgpu_driver.Ownership.Completion.{interrupt_dpc-Owned, Calm-log_effect}
use mvisor_win_vgpu_driver.Ownership.Deletion.{found_again, delete_resource-Owned}
use mvisor_win_vgpu_driver.Ownership.Statements.{
  Ends, Ends-bind, Ends-return, Ends-non_null, Ends-update_driver, Ends-current_context, Current,
  Stays-retrieve_input,
}

abbrev pub Safe : Driver → Type 0
Safe = Owned nothing

Calm-insert_context : (id : ℕ) (d : Driver) → Calm d (insert_context id d)
Calm-insert_context id d = record { memory = refl; idrs = refl; light = λ v. omega arith }

Calm-capsets : (c : Capsets) (d : Driver) → Calm d (record d { capsets = c })
Calm-capsets c d = record { memory = refl; idrs = refl; light = λ v. omega arith }

module _ (os : Os) (laws : RtlLaws os.rtl) where
  -- The steps of the handlers that wait, ask for the capsets or open a context keep the invariant.
  pub Safe-Steady : Steady os Safe
  Safe-Steady = record {
    waited = λ d o. serve-kept os Safe (interrupt_dpc-Owned os laws nothing none) os.interrupts d o;
    shared = λ id s d o. Owned-Calm nothing d _ (Calm-set_share os.process_id id s d) o;
    queried = λ c d q o. Owned-Calm nothing d _ (Calm-log_effect _ d) o;
    stored = λ c d o. Owned-Calm nothing d _ (Calm-capsets c d) o;
    inserted = λ d free o. Owned-Calm nothing d _ (Calm-insert_context os.process_id d) o;
    created =
        λ init d o. Owned-Calm nothing d _ (Calm-create_virgl_context os os.process_id init d) o;
  }

  -- The resource of a handle in the context of the calling process.
  abbrev Found : Context → ℕ → Resource → Driver → Type 0
  Found c handle r d =
      Safe d
      × (get_virgl_context_from_list os.process_id d ≡ some c)
      × (get_resource_from_list handle c ≡ some r)

  abbrev Here : Context → Driver → Type 0
  Here = Current Safe (λ d h. h) os

  pub close_resource-Ends :
      (request : Request) → Ends Safe (ctl_close_resource os request) (λ _. Safe)
  unfolding ctl_close_resource
  close_resource-Ends request =
      Ends-bind (λ _. Safe) _ _ (Stays-retrieve_input Safe (λ d h. h) request _)
        (λ status. Ends-bind Here _ _ (Ends-current_context Safe (λ d h. h) os) (λ c.
          Ends-bind (Found c _) _ _ (Ends-non_null _ _ (λ d h. h.0) (λ r d e h. (h.0, h.1, e)))
            (λ r.
              Ends-bind (λ _. Owned (λ f. resource_weight f r + nothing f)) _ _
                (Ends-update_driver _ (λ d h.
                  remove_resource-Owned nothing c.id _ c r d (found_again os.process_id c d h.1) h.2
                    h.0))
                (λ _.
                  Ends-bind (λ _. Safe) _ _
                    (Ends-update_driver _ (λ d o. delete_resource-Owned os laws nothing c.id r d o))
                    (λ _. Ends-return _ (λ d h. h))))))

  pub transfer_host-Ends :
      (to_host : Bool) (request : Request)
      → Ends Safe (ctl_transfer_host os to_host request) (λ _. Safe)
  unfolding ctl_transfer_host
  transfer_host-Ends to_host request =
      Ends-bind (λ _. Safe) _ _ (Stays-retrieve_input Safe (λ d h. h) request _)
        (λ status. Ends-bind Here _ _ (Ends-current_context Safe (λ d h. h) os) (λ c.
          Ends-bind (λ _. Safe) _ _ (Ends-non_null _ _ (λ d h. h.0) (λ r d e h. h.0))
            (λ r.
              Ends-bind (λ _. Safe) _ _
                (Ends-update_driver _
                  (λ d o. Owned-Calm nothing d _ (Calm-update_resource_state c.id _ 1 true 0 d) o))
                (λ _.
                  Ends-bind (λ _. Safe) _ _
                    (Ends-update_driver _ (λ d o.
                      Owned-Calm nothing d _ (Calm-transfer_host_3d os c.id _ 0 to_host d) o))
                    (λ _. Ends-return _ (λ d h. h))))))
