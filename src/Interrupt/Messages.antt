-- ===== src/Interrupt/Messages.antt =====
-- The two ways in which `VirtioVgpuInterruptDpc` of kernelmode/vgpu/vgpu.c learns which queue to
-- read: from the number of a message, or by reading all.
use mvisor_win_vgpu_driver.Common.{
  ℕ, zero, suc, ◌≤◌, ◌≡◌, refl, ◌∙◌, true, false, some, none, List, arith, ltb,
}
use mvisor_win_vgpu_driver.Driver.{Driver, VgpuBuffer}
use mvisor_win_vgpu_driver.Os.{Os, Interrupt}
use mvisor_win_vgpu_driver.Command.Push.{Queue, command_queue, control_queue, set_outstanding}
use mvisor_win_vgpu_driver.Lookup.{update_resource_state}
use mvisor_win_vgpu_driver.Interrupt.{read_queues, interrupt_dpc}
use mvisor_win_vgpu_driver.Interrupt.Served.{Served, interrupt_dpc-served}

abbrev Counts : Driver → Driver → Type 0
Counts d d' = d'.num_virt_queues ≡ d.num_virt_queues

set_outstanding-Counts :
    (w : Queue) (bs : List VgpuBuffer) (d : Driver) → Counts d (set_outstanding w bs d)
set_outstanding-Counts command_queue bs d = refl
set_outstanding-Counts control_queue bs d = refl

update_resource_state-Counts :
    (ctx : ℕ) (ids : List ℕ) (n fence : ℕ) (d : Driver)
    → Counts d (update_resource_state ctx ids n false fence d)
unfolding update_resource_state
update_resource_state-Counts ctx ids n fence d = refl

module _ (os : Os) where
  Counts-Served : Served os Counts
  Counts-Served = record {
    none_done = λ d. refl;
    both = λ a b c h k. k ∙ h;
    mapped = λ ctx id address size d. refl;
    marked = update_resource_state-Counts;
    signalled = λ object d. refl;
    freed = λ va size d. refl;
    taken = λ w i b d at. set_outstanding-Counts w _ d;
  }

  -- A message for each of the first queues, in order.
  abbrev pub each_message : ℕ → Interrupt → Driver → Driver
  each_message zero i d = d
  each_message (suc n) i d = interrupt_dpc os (some n) i (each_message n i d)

  each_message-count :
      (n : ℕ) (i : Interrupt) (d : Driver)
      → (each_message n i d).num_virt_queues ≡ d.num_virt_queues
  each_message-count zero i d = refl
  each_message-count (suc n) i d =
      interrupt_dpc-served os Counts Counts-Served (some n) i _ ∙ each_message-count n i d

  each_message-reads :
      (n : ℕ) (i : Interrupt) (d : Driver)
      → n ≤ d.num_virt_queues
      → each_message n i d ≡ read_queues os n i d
  unfolding interrupt_dpc
  each_message-reads zero i d known = refl
  each_message-reads (suc n) i d known =
      let has : ltb n (each_message n i d).num_virt_queues ≡ true =
        ground (arith, each_message-count n i d, known) in
      rw (has, each_message-reads n i d (omega arith)) refl

  -- A device that signals each of its queues by a message of its own, in order, has the same served
  -- as one that signals no messages, whose queues are all read.
  pub each_message_lem :
      (i : Interrupt) (d : Driver) → each_message d.num_virt_queues i d ≡ interrupt_dpc os none i d
  unfolding interrupt_dpc
  each_message_lem i d = each_message-reads d.num_virt_queues i d (omega arith)
