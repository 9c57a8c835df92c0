-- ===== src/Isolation/Refusal.antt =====
-- A process without a context, in kernelmode/vgpu/control.c and kernelmode/vgpu/vgpu.c: its
-- requests are refused.
use mvisor_win_vgpu_driver.Common.{ℕ, ◌^◌, ◌≤◌, ◌≡◌, refl, ◌∙◌, Bool, true, false, none, arith}
use mvisor_win_vgpu_driver.Driver.{Context}
use mvisor_win_vgpu_driver.Os.{Os}
use mvisor_win_vgpu_driver.Exec.{
  Exec, Result, ok, leave, blocked, ◌>>=◌, return, leave_with, unless, resume, nt_success,
}
use mvisor_win_vgpu_driver.Request.{
  Request, Io, set_bytes_return, get_driver, retrieve_input, retrieve_output,
}
use mvisor_win_vgpu_driver.Lookup.{get_virgl_context_from_list}
use mvisor_win_vgpu_driver.Control.Resources.{
  current_context, ctl_create_resource, ctl_create_blob_resource, ctl_close_resource,
}
use mvisor_win_vgpu_driver.Control.Waiting.{ctl_wait, ctl_map}
use mvisor_win_vgpu_driver.Control.Submission.{ctl_transfer_host, ctl_submit_command}

abbrev Anything : {A : Type 0} → A → Type 0
Anything a = Unit

-- What is known of a value, while a failure has the status of an error and nothing waits.
abbrev pub Fails : {A : Type 0} → (A → Type 0) → Result A → Type 0
Fails F (ok a) = F a
Fails F (leave status) = 2 ^ 31 ≤ status
Fails F blocked = ⊥

abbrev pub Error : ℕ → Type 0
Error status = 2 ^ 31 ≤ status

-- No value, for a statement that does not go on.
abbrev Never : {A : Type 0} → A → Type 0
Never a = ⊥

-- The statement changes neither the driver nor the output of a process that has no context.
pub record Refused {A : Type 0} (os : Os) (F : A → Type 0) (m : Exec Io A) : Type 0 where
  pub at :
      (s : Io)
      → get_virgl_context_from_list os.process_id s.driver ≡ none
      → ((m s).1.driver ≡ s.driver) × ((m s).1.output ≡ s.output) × Fails F (m s).0

not_success : (status : ℕ) → nt_success status ≡ false → Error status
not_success status e = ground arith

module _ {os : Os} where
  Refused-unless :
      (b : Bool) (status : ℕ) → (b ≡ false → Error status) → Refused os Anything (unless b status)
  unfolding unless
  Refused-unless true status h = record { at = λ s e. (refl, refl, tt) }
  Refused-unless false status h = record { at = λ s e. (refl, refl, h refl) }

  Refused-set_bytes_return : (n : ℕ) → Refused os Anything (set_bytes_return n)
  unfolding set_bytes_return
  Refused-set_bytes_return n = record { at = λ s e. (refl, refl, tt) }

  Refused-return : {A : Type 0} {F : A → Type 0} (a : A) → F a → Refused os F (return a)
  unfolding return
  Refused-return a f = record { at = λ s e. (refl, refl, f) }

  pub Refused-Error : (a : ℕ) → Error a → Refused os Error (return a)
  Refused-Error a f = Refused-return a f

  bind_cases :
      {A B : Type 0} {F : A → Type 0} {G : B → Type 0} (r : Result A) (s t : Io) (k : A → Exec Io B)
      → get_virgl_context_from_list os.process_id s.driver ≡ none
      → t.driver ≡ s.driver
      → t.output ≡ s.output
      → Fails F r
      → ((a : A) → F a → Refused os G (k a))
      → ((resume r k t).1.driver ≡ s.driver)
        × ((resume r k t).1.output ≡ s.output)
        × Fails G (resume r k t).0
  bind_cases (ok a) s t k e same out f next =
      let (x, y, z) = (next a f).at t (rw same e) in (x ∙ same, y ∙ out, z)
  bind_cases (leave status) s t k e same out f next = (same, out, f)
  bind_cases blocked s t k e same out f next = absurd f

  Refused-bind :
      {A B : Type 0} {F : A → Type 0} {G : B → Type 0} (m : Exec Io A) (k : A → Exec Io B)
      → Refused os F m
      → ((a : A) → F a → Refused os G (k a))
      → Refused os G (m >>= k)
  unfolding ◌>>=◌
  Refused-bind {F} {G} m k h next = record {
    at = λ s e.
        let (x, y, z) = h.at s e in bind_cases {F = F} {G = G} (m s).0 s (m s).1 k e x y z next;
  }

  Refused-retrieve_input :
      (request : Request) (n : ℕ) → Refused os Anything (retrieve_input request n)
  unfolding retrieve_input
  Refused-retrieve_input request n = Refused-bind _ _ (Refused-unless _ _ (not_success _)) (λ _ _.
      Refused-bind _ _ (Refused-set_bytes_return _) (λ _ _.
        Refused-bind _ _ (Refused-unless _ _ (λ e. omega arith)) (λ _ _. Refused-return _ tt)))

  Refused-retrieve_output :
      (request : Request) (n : ℕ) → Refused os Anything (retrieve_output request n)
  unfolding retrieve_output
  Refused-retrieve_output request n = Refused-bind _ _ (Refused-unless _ _ (not_success _)) (λ _ _.
      Refused-bind _ _ (Refused-set_bytes_return _) (λ _ _.
        Refused-bind _ _ (Refused-unless _ _ (λ e. omega arith)) (λ _ _. Refused-return _ tt)))

  Refused-current_context : Refused os Never (current_context os)
  unfolding current_context ◌>>=◌ get_driver leave_with
  Refused-current_context = record { at = λ s e. rw e (refl, refl, omega arith) }

  -- The rest of a handler, once it has looked up the context of its process.
  Refused-lookup : (k : Context → Exec Io ℕ) → Refused os Error (current_context os >>= k)
  Refused-lookup k = Refused-bind _ _ Refused-current_context (λ c f. absurd f)

  -- A handler that has an input, and one that has an output too.
  Refused-input :
      (request : Request) (n : ℕ) (k : ℕ → Context → Exec Io ℕ)
      → Refused os Error (retrieve_input request n >>= λ s. current_context os >>= k s)
  Refused-input request n k =
      Refused-bind _ _ (Refused-retrieve_input request n) (λ s _. Refused-lookup (k s))

  Refused-output :
      (request : Request) (n m : ℕ) (k : ℕ → ℕ → Context → Exec Io ℕ)
      → Refused os Error (
          retrieve_input request n >>= λ s.
          retrieve_output request m >>= λ t. current_context os >>= k s t)
  Refused-output request n m k =
      Refused-bind _ _ (Refused-retrieve_input request n) (λ s _.
        Refused-bind _ _ (Refused-retrieve_output request m) (λ t _. Refused-lookup (k s t)))

  pub create_resource-Refused :
      (request : Request) → Refused os Error (ctl_create_resource os request)
  unfolding ctl_create_resource
  create_resource-Refused request = Refused-output request _ _ _

  pub create_blob_resource-Refused :
      (request : Request) → Refused os Error (ctl_create_blob_resource os request)
  unfolding ctl_create_blob_resource
  create_blob_resource-Refused request = Refused-output request _ _ _

  pub close_resource-Refused :
      (request : Request) → Refused os Error (ctl_close_resource os request)
  unfolding ctl_close_resource
  close_resource-Refused request = Refused-input request _ _

  pub wait-Refused : (request : Request) → Refused os Error (ctl_wait os request)
  unfolding ctl_wait
  wait-Refused request = Refused-output request _ _ _

  pub map-Refused : (request : Request) → Refused os Error (ctl_map os request)
  unfolding ctl_map
  map-Refused request = Refused-output request _ _ _

  pub transfer_host-Refused :
      (to_host : Bool) (request : Request) → Refused os Error (ctl_transfer_host os to_host request)
  unfolding ctl_transfer_host
  transfer_host-Refused to_host request = Refused-input request _ _

  pub submit_command-Refused :
      (request : Request) → Refused os Error (ctl_submit_command os request)
  unfolding ctl_submit_command
  submit_command-Refused request = Refused-input request _ _
