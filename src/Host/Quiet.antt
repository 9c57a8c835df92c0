-- ===== src/Host/Quiet.antt =====
-- The steps of kernelmode/vgpu that put no command on a queue: interrupts and waits, writes to
-- resources, and what the handlers take from the allocator.
use mvisor_win_vgpu_driver.Common.{
  ℕ, ◌≤◌, ◌≡◌, refl, ◌∙◌, Bool, false, Option, some, List, arith, get_elem?, remove_at,
}
use mvisor_win_vgpu_driver.Driver.{Driver, VgpuBuffer, ShareDescriptor}
use mvisor_win_vgpu_driver.Os.{Os, Interrupt}
use mvisor_win_vgpu_driver.Lookup.{
  has_resource_id, has_context_id, modify_context, write_resource, update_resource_state,
}
use mvisor_win_vgpu_driver.Command.Push.{
  Queue, command_queue, control_queue, outstanding, set_outstanding,
}
use mvisor_win_vgpu_driver.Interrupt.{set_mapping, interrupt_dpc, serve}
use mvisor_win_vgpu_driver.Interrupt.Served.{Served, interrupt_dpc-served, serve-served}
use mvisor_win_vgpu_driver.Control.Waiting.{set_share}
use mvisor_win_vgpu_driver.Ownership.Totals.{
  total, Calm, Calm-update_resource_state, Calm-set_share, in_contexts-modify, sum_of-modify,
}
use mvisor_win_vgpu_driver.Ownership.Taking.{Drops-take_buffer}
use mvisor_win_vgpu_driver.Host.{HostState, served}
use mvisor_win_vgpu_driver.Host.Invariant.{Hands, seen, bears, Follows}

-- No command is sent, and no resource is added or taken to be in another state.
pub record Quiet (d d' : Driver) : Type 0 where
  pub same_commands : served d'.effects ≡ served d.effects
  pub idrs : d'.idrs ≡ d.idrs
  pub light : (i : ℕ) (s : HostState) → total (seen i s) d' ≤ total (seen i s) d

pub Follows-Quiet : (e : Hands) (d d' : Driver) → Quiet d d' → Follows e d → Follows e d'
Follows-Quiet e d d' q f = record {
  table = f.table;
  in_order = rw q.same_commands f.in_order;
  agrees = λ i s. omega (arith, f.agrees i s, q.light i s);
  unknown = λ i h. f.unknown i (rw⁻¹ q.idrs h);
}

pub Follows-Quiet_table :
    (e : Hands) (d d' : Driver) (q : Quiet d d') (f : Follows e d)
    → (Follows-Quiet e d d' q f).table ≡ f.table
unfolding Follows-Quiet
Follows-Quiet_table e d d' q f = refl

Quiet-refl : (d : Driver) → Quiet d d
Quiet-refl d = record { same_commands = refl; idrs = refl; light = λ i s. omega arith }

Quiet-trans : (a b c : Driver) → Quiet a b → Quiet b c → Quiet a c
Quiet-trans a b c x y = record {
  same_commands = y.same_commands ∙ x.same_commands;
  idrs = y.idrs ∙ x.idrs;
  light = λ i s. omega (arith, x.light i s, y.light i s);
}

pub Quiet-Calm : (d d' : Driver) → Calm d d' → served d'.effects ≡ served d.effects → Quiet d d'
Quiet-Calm d d' c e = record {
  same_commands = e;
  idrs = c.idrs;
  light = λ i s. omega (arith, c.light (seen i s));
}

-- A step that changes nothing but the allocator, the capsets, a fence identifier or the effects.
Quiet-elsewhere :
    (d d' : Driver)
    → served d'.effects ≡ served d.effects
    → d'.idrs ≡ d.idrs
    → ((i : ℕ) (s : HostState) → total (seen i s) d' ≡ total (seen i s) d)
    → Quiet d d'
Quiet-elsewhere d d' e i same = record {
  same_commands = e;
  idrs = i;
  light = λ j s. omega (arith, same j s);
}

pub Quiet-update_resource_state :
    (ctx : ℕ) (ids : List ℕ) (n : ℕ) (busy : Bool) (fence : ℕ) (d : Driver)
    → Quiet d (update_resource_state ctx ids n busy fence d)
unfolding update_resource_state
Quiet-update_resource_state ctx ids n busy fence d =
    Quiet-Calm d _ (Calm-update_resource_state ctx ids n busy fence d) refl

pub Quiet-set_share :
    (ctx id : ℕ) (s : ShareDescriptor) (d : Driver)
    → Quiet d (modify_context ctx (write_resource id (set_share s)) d)
Quiet-set_share ctx id s d = Quiet-Calm d _ (Calm-set_share ctx id s d) refl

-- The mapping of a blob does not bear on what the driver takes its state to be.
Quiet-set_mapping :
    (ctx id address size : ℕ) (d : Driver)
    → Quiet d (modify_context ctx (write_resource id (set_mapping address size)) d)
Quiet-set_mapping ctx id address size d = record {
  same_commands = refl;
  idrs = refl;
  light = λ i s.
      let g = bears i s in
      let u = set_mapping address size in
      omega (
        arith,
        in_contexts-modify g g (has_context_id ctx) (write_resource id u) 0 d.contexts
            (λ c. omega (
              arith,
              sum_of-modify g g (has_resource_id id) u c.resources (λ r _. omega arith)
                  (λ r. omega arith),
            ))
            (λ r. omega arith),
      );
}

Quiet-take_buffer :
    (w : Queue) (i : ℕ) (b : VgpuBuffer) (d : Driver)
    → get_elem? (outstanding w d) i ≡ some b
    → served (set_outstanding w (remove_at (outstanding w d) i) d).effects ≡ served d.effects
    → Quiet d (set_outstanding w (remove_at (outstanding w d) i) d)
Quiet-take_buffer w i b d at e =
    let g = Drops-take_buffer w i b d at in
    record { same_commands = e; idrs = g.idrs; light = λ j s. omega (arith, g.light (seen j s)) }

set_outstanding-effects :
    (w : Queue) (l : List VgpuBuffer) (d : Driver) → (set_outstanding w l d).effects ≡ d.effects
set_outstanding-effects command_queue l d = refl
set_outstanding-effects control_queue l d = refl

module _ (os : Os) where
  Quiet-Served : Served os Quiet
  Quiet-Served = record {
    none_done = Quiet-refl;
    both = Quiet-trans;
    mapped = Quiet-set_mapping;
    marked = λ ctx ids n fence d. Quiet-update_resource_state ctx ids n false fence d;
    signalled = λ object d. Quiet-elsewhere d _ refl refl (λ i s. refl);
    freed = λ va size d. Quiet-elsewhere d _ refl refl (λ i s. refl);
    taken = λ w i b d at. Quiet-take_buffer w i b d at (rw (set_outstanding-effects w _ d) refl);
  }

  pub Quiet-interrupt_dpc :
      (message : Option ℕ) (i : Interrupt) (d : Driver) → Quiet d (interrupt_dpc os message i d)
  Quiet-interrupt_dpc message i d = interrupt_dpc-served os Quiet Quiet-Served message i d

  pub Quiet-serve : (is : List Interrupt) (d : Driver) → Quiet d (serve os is d)
  Quiet-serve is d = serve-served os Quiet Quiet-Served is d
