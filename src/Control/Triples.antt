-- ===== src/Control/Triples.antt =====
-- Triples for the statements of the handlers of kernelmode/vgpu/control.c: what holds of the driver
-- before a statement, and of its value and the driver when it goes on.
use mvisor_win_vgpu_driver.Common.{
  ℕ, ◌≡◌, refl, Bool, true, false, Option, none, some, List, if◌then◌else◌,
}
use mvisor_win_vgpu_driver.Driver.{Driver, Context}
use mvisor_win_vgpu_driver.Os.{Os}
use mvisor_win_vgpu_driver.Exec.{
  Result, ok, leave, blocked, Exec, ◌>>=◌, return, leave_with, unless, nt_success, resume,
}
use mvisor_win_vgpu_driver.Request.{
  Request, Io, Output, set_bytes_return, write_output, update_driver, get_driver, call_driver,
  retrieve_input, retrieve_output,
}
use mvisor_win_vgpu_driver.Lookup.{get_virgl_context_from_list}
use mvisor_win_vgpu_driver.Control.Contexts.{user_bytes, read_user_buffer}
use mvisor_win_vgpu_driver.Control.Resources.{non_null, current_context}

abbrev pub TripleAt :
    {A : Type 0} → (Driver → Type 0) → (A → Driver → Type 0) → Result A → Driver → Type 0
TripleAt I Q (ok a) d = Q a d
TripleAt I Q (leave status) d = I d
TripleAt I Q blocked d = I d

-- From a driver with `K`, the statement goes on with `Q`, or it is left or blocks for ever with the
-- invariant `I`.
pub record Triple {A : Type 0} (I K : Driver → Type 0) (m : Exec Io A) (Q : A → Driver → Type 0)
    : Type 0 where
  pub at : (s : Io) → K s.driver → TripleAt I Q (m s).0 (m s).1.driver

module _ {A : Type 0} {I K : Driver → Type 0} {Q : A → Driver → Type 0} where
  pub Ends-return : (a : A) → ((d : Driver) → K d → Q a d) → Triple I K (return a) Q
  unfolding return
  Ends-return a q = record { at = λ s h. q s.driver h }

  pub Ends-leave_with : (status : ℕ) → ((d : Driver) → K d → I d) → Triple I K (leave_with status) Q
  unfolding leave_with
  Ends-leave_with status p = record { at = λ s h. p s.driver h }

  pub Ends-non_null :
      (o : Option A) (status : ℕ)
      → ((d : Driver) → K d → I d)
      → ((a : A) (d : Driver) → o ≡ some a → K d → Q a d)
      → Triple I K (non_null o status) Q
  unfolding leave_with return
  Ends-non_null none status p q = record { at = λ s h. p s.driver h }
  Ends-non_null (some a) status p q = record { at = λ s h. q a s.driver refl h }

  pub Ends-call_driver :
      (f : Driver → A × Driver)
      → ((d : Driver) → K d → Q (f d).0 (f d).1)
      → Triple I K (call_driver f) Q
  unfolding call_driver
  Ends-call_driver f q = record { at = λ s h. q s.driver h }

  pub Ends-if :
      (b : Bool) (m n : Exec Io A)
      → Triple I K m Q
      → Triple I K n Q
      → Triple I K (if b then m else n) Q
  Ends-if true m n x y = x
  Ends-if false m n x y = y

  -- A fact that bears on no driver.
  pub Ends-fact : {F : Type 0} (m : Exec Io A) → (F → Triple I K m Q) → Triple I (λ d. F × K d) m Q
  Ends-fact m x = record { at = λ s h. (x h.0).at s h.1 }

  pub Ends-before :
      (K' : Driver → Type 0) (m : Exec Io A)
      → ((d : Driver) → K' d → K d)
      → Triple I K m Q
      → Triple I K' m Q
  Ends-before K' m p x = record { at = λ s h. x.at s (p s.driver h) }

module _ {I K : Driver → Type 0} {Q : Unit {0} → Driver → Type 0} where
  pub Ends-update_driver :
      (f : Driver → Driver) → ((d : Driver) → K d → Q tt (f d)) → Triple I K (update_driver f) Q
  unfolding update_driver
  Ends-update_driver f q = record { at = λ s h. q s.driver h }

  pub Ends-unless :
      (b : Bool) (status : ℕ)
      → ((d : Driver) → K d → I d)
      → ((d : Driver) → K d → Q tt d)
      → Triple I K (unless b status) Q
  unfolding unless
  Ends-unless true status p q = record { at = λ s h. q s.driver h }
  Ends-unless false status p q = record { at = λ s h. p s.driver h }

  -- What was tested holds from then on.
  pub Ends-guard :
      (b : Bool) (status : ℕ)
      → ((d : Driver) → K d → I d)
      → ((d : Driver) → b ≡ true → K d → Q tt d)
      → Triple I K (unless b status) Q
  unfolding unless
  Ends-guard true status p q = record { at = λ s h. q s.driver refl h }
  Ends-guard false status p q = record { at = λ s h. p s.driver h }

module _ {A B : Type 0} {I : Driver → Type 0} {R : B → Driver → Type 0} where
  bind_cases :
      (Q : A → Driver → Type 0) (r : Result A) (t : Io) (k : A → Exec Io B)
      → TripleAt I Q r t.driver
      → ((a : A) → Triple I (Q a) (k a) R)
      → TripleAt I R (resume r k t).0 (resume r k t).1.driver
  bind_cases Q (ok a) t k h next = (next a).at t h
  bind_cases Q (leave status) t k h next = h
  bind_cases Q blocked t k h next = h

module _ {A B : Type 0} {I K : Driver → Type 0} {R : B → Driver → Type 0} where
  pub Ends-bind :
      (Q : A → Driver → Type 0) (m : Exec Io A) (k : A → Exec Io B)
      → Triple I K m Q
      → ((a : A) → Triple I (Q a) (k a) R)
      → Triple I K (m >>= k) R
  unfolding ◌>>=◌
  Ends-bind Q m k h next = record { at = λ s p. bind_cases Q (m s).0 (m s).1 k (h.at s p) next }

-- The statements that leave the driver alone.
module _ {I : Driver → Type 0} (K : Driver → Type 0) where
  pub Stays-write_output : (o : Output) → Triple I K (write_output o) (λ _. K)
  unfolding write_output
  Stays-write_output o = record { at = λ s h. h }

  pub Ends-get_driver : Triple I K get_driver (λ a d. (a ≡ d) × K d)
  unfolding get_driver
  Ends-get_driver = record { at = λ s h. (refl, h) }

  Stays-set_bytes_return : (n : ℕ) → Triple I K (set_bytes_return n) (λ _. K)
  unfolding set_bytes_return
  Stays-set_bytes_return n = record { at = λ s h. h }

  module _ (p : (d : Driver) → K d → I d) where
    pub Stays-unless : (b : Bool) (status : ℕ) → Triple I K (unless b status) (λ _. K)
    Stays-unless b status = Ends-unless b status p (λ d h. h)

    pub Stays-retrieve_input :
        (request : Request) (n : ℕ) → Triple I K (retrieve_input request n) (λ _. K)
    unfolding retrieve_input
    Stays-retrieve_input request n =
        Ends-bind (λ _. K) _ _ (Stays-unless _ _)
          (λ _.
            Ends-bind (λ _. K) _ _ (Stays-set_bytes_return _)
              (λ _. Ends-bind (λ _. K) _ _ (Stays-unless _ _) (λ _. Ends-return _ (λ d h. h))))

    pub Stays-retrieve_output :
        (request : Request) (n : ℕ) → Triple I K (retrieve_output request n) (λ _. K)
    unfolding retrieve_output
    Stays-retrieve_output request n =
        Ends-bind (λ _. K) _ _ (Stays-unless _ _)
          (λ _.
            Ends-bind (λ _. K) _ _ (Stays-set_bytes_return _)
              (λ _. Ends-bind (λ _. K) _ _ (Stays-unless _ _) (λ _. Ends-return _ (λ d h. h))))

    Stays-user_bytes :
        (status : ℕ) (bytes : Option (List ℕ)) → Triple I K (user_bytes status bytes) (λ _. K)
    Stays-user_bytes status none = Ends-leave_with _ p
    Stays-user_bytes status (some bytes) = Ends-return _ (λ d h. h)

    pub Stays-read_user_buffer :
        (os : Os) (address size : ℕ) → Triple I K (read_user_buffer os address size) (λ _. K)
    unfolding read_user_buffer
    Stays-read_user_buffer os address size =
        Ends-if (nt_success (os.probe_and_lock address size)) _ _ (Stays-user_bytes _ _)
          (Ends-leave_with _ p)

    -- The context of the calling process, with the fact that it was found.
    abbrev pub Current : Os → Context → Driver → Type 0
    Current os c d = K d × (get_virgl_context_from_list os.process_id d ≡ some c)

    pub Ends-current_context : (os : Os) → Triple I K (current_context os) (Current os)
    unfolding current_context
    Ends-current_context os =
        Ends-bind (λ a d. (a ≡ d) × K d) _ _ Ends-get_driver
          (λ a. Ends-non_null _ _ (λ d h. p d h.1) (λ c d e h. (h.1, rw⁻¹ h.0 e)))
