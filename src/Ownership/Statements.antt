-- ===== src/Ownership/Statements.antt =====
-- Rules for the statements of the handlers of kernelmode/vgpu/control.c: a handler ends, whichever
-- way, with the invariant.
use mvisor_win_vgpu_driver.Driver.{Driver}
use mvisor_win_vgpu_driver.Exec.{Exec, Result}
use mvisor_win_vgpu_driver.Request.{Io}
use mvisor_win_vgpu_driver.Ownership.Invariant.{Owned, nothing}
use mvisor_win_vgpu_driver.Control.Triples.{Triple, TripleAt}
pub use mvisor_win_vgpu_driver.Control.Triples.{
  Current, Ends-return, Ends-leave_with, Ends-non_null, Ends-call_driver, Ends-if, Ends-fact,
  Ends-before, Ends-update_driver, Ends-unless, Ends-bind, Stays-write_output, Ends-get_driver,
  Stays-unless, Stays-retrieve_input, Stays-retrieve_output, Stays-read_user_buffer,
  Ends-current_context,
}

abbrev pub EndsAt : {A : Type 0} → (A → Driver → Type 0) → Result A → Driver → Type 0
EndsAt = TripleAt (Owned nothing)

abbrev pub Ends : {A : Type 0} → (Driver → Type 0) → Exec Io A → (A → Driver → Type 0) → Type 0
Ends = Triple (Owned nothing)

abbrev pub Stays : (Driver → Type 0) → {A : Type 0} → Exec Io A → Type 0
Stays K m = Ends K m (λ _. K)
