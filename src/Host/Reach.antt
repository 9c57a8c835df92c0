-- ===== src/Host/Reach.antt =====
-- Histories of the driver of kernelmode/vgpu, and the commands that the host gets in them.
use mathlib.Core.Path.{subst}
use mvisor_win_vgpu_driver.Common.{sym, ℕ, ◌≤◌, ◌≡◌, refl, some, List, [], ◌∷◌, arith}
use mvisor_win_vgpu_driver.Memory.Bitmap.{Rtl}
use mvisor_win_vgpu_driver.Driver.{Driver, status_success}
use mvisor_win_vgpu_driver.Os.{Os}
use mvisor_win_vgpu_driver.Ioctl.Kept.{Kept, io_control-kept, process_notify-kept}
use mvisor_win_vgpu_driver.Device.{Hardware, prepare_hardware}
use mvisor_win_vgpu_driver.Ownership.Totals.{in_contexts}
use mvisor_win_vgpu_driver.Ownership.Reach.Events.{
  Event, request, interrupt, process, run, HasIds, prepared, prepare_hardware-prepared,
}
use mvisor_win_vgpu_driver.Host.{HostState, Table, no_resources, served}
use mvisor_win_vgpu_driver.Host.Invariant.{empty, bears, at_most}
use mvisor_win_vgpu_driver.Host.Sending.{Accepting}
use mvisor_win_vgpu_driver.Host.Quiet.{Follows-Quiet, Quiet-interrupt_dpc}
use mvisor_win_vgpu_driver.Host.Taking.{sum_of-none}
use mvisor_win_vgpu_driver.Host.Steps.{Follows-destroy}
use mvisor_win_vgpu_driver.Host.Creation.{
  Tracked, Ready, create_resource-Ends, create_blob_resource-Ends,
}
use mvisor_win_vgpu_driver.Host.Handlers.{
  Tracked-Steady, close_resource-Ends, submit_command-Ends, transfer_host-Ends,
}

module _ (os : Os) (accepts : Accepting os) where
  Tracked-Kept : Kept os Tracked Ready
  Tracked-Kept = record {
    weaker = λ d h. h.0;
    steady = Tracked-Steady os accepts;
    destroyed = λ c d at f. Follows-destroy os accepts os.process_id c empty d at f;
    create = create_resource-Ends os accepts;
    create_blob = create_blob_resource-Ends os accepts;
    close = close_resource-Ends os accepts;
    submit = submit_command-Ends os accepts;
    transfer = transfer_host-Ends os accepts;
  }

-- No queue is full at any event.
abbrev pub AllAccept : List Event → Type 0
AllAccept [] = Unit
AllAccept (request os r code ∷ es) = Accepting os × AllAccept es
AllAccept (interrupt os message i ∷ es) = AllAccept es
AllAccept (process os id create ∷ es) = Accepting os × AllAccept es

module _ (rtl : Rtl) where
  run-Tracked :
      (es : List Event) (d : Driver)
      → AllAccept es
      → HasIds rtl es d
      → Tracked d
      → Tracked (run rtl es d)
  run-Tracked [] d a room f = f
  run-Tracked (request os r code ∷ es) d a room f =
      let here = record os { rtl = rtl } in
      run-Tracked es _ a.1 room.1
        (io_control-kept here Tracked Ready (Tracked-Kept here a.0) r code d (f, room.0))
  run-Tracked (interrupt os message i ∷ es) d a room f =
      run-Tracked es _ a room.1
        (Follows-Quiet empty d _ (Quiet-interrupt_dpc (record os { rtl = rtl }) message i d) f)
  run-Tracked (process os id create ∷ es) d a room f =
      let here = record os { rtl = rtl } in
      run-Tracked es _ a.1 room.1 (
        process_notify-kept here Tracked id (λ c x at g. Follows-destroy here a.0 id c empty x at g)
          create d f)

prepared-Tracked : (h : Hardware) (d : Driver) → d.effects ≡ [] → Tracked (prepared h d)
prepared-Tracked h d quiet = record {
  table = no_resources;
  in_order = rw quiet refl;
  agrees = λ i s. omega (
    arith,
    sum_of-none (λ b. 0) d.command_queue (λ b. refl),
    sum_of-none (λ b. 0) d.control_queue (λ b. refl),
  );
  unknown = λ i h. refl;
}

pub run_prepared-Tracked :
    (rtl : Rtl) (h : Hardware) (d : Driver) (es : List Event)
    → d.effects ≡ []
    → (prepare_hardware h d).0 ≡ status_success
    → AllAccept es
    → HasIds rtl es (prepare_hardware h d).1
    → Tracked (run rtl es (prepare_hardware h d).1)
run_prepared-Tracked rtl h d es quiet done accepts room =
    let start =
      subst Tracked (sym (prepare_hardware-prepared h d done)) (prepared-Tracked h d quiet) in
    run-Tracked rtl es _ accepts room start

-- How many resources of the driver have the identifier and are taken to be in the state.
abbrev pub borne : ℕ → HostState → Driver → ℕ
borne id s d = in_contexts (bears id s) d.contexts

-- The host has taken every command so far in order, no two resources have one identifier, and each
-- is at the host in the state that the driver takes it to be in.
abbrev pub InStep : Driver → Type 0
InStep d =
    (t : Table) × (served d.effects ≡ some t)
    × ((id : ℕ) (s : HostState) → borne id s d ≤ at_most t id s)

-- In any history of a device that was prepared with nothing sent, while resource identifiers are
-- left and no queue is full, the host takes every command in order, no two resources have one
-- identifier, and each is at the host in the state that the driver takes it to be in.
pub run-InStep :
    (rtl : Rtl) (h : Hardware) (d : Driver) (es : List Event)
    → d.effects ≡ []
    → (prepare_hardware h d).0 ≡ status_success
    → AllAccept es
    → HasIds rtl es (prepare_hardware h d).1
    → InStep (run rtl es (prepare_hardware h d).1)
run-InStep rtl h d es quiet done accepts room =
    let f = run_prepared-Tracked rtl h d es quiet done accepts room in
    (f.table, f.in_order, λ id s. omega (arith, f.agrees id s))
