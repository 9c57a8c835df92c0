-- ===== src/Control/Steady/Queries.antt =====
-- The handlers of kernelmode/vgpu/control.c that ask the device for its capsets keep
-- what a query and its answer keep.
use mathlib.Core.Path.{subst}
use mvisor_win_vgpu_driver.Common.{
  sym, ℕ, zero, suc, ◌+◌, ◌≡◌, ◌⊎◌, refl, true, Option, none, some, [], ◌∷◌, ◌++◌, ◌==◌, ltb,
  Bool-cases, inl, inr,
}
use mvisor_win_vgpu_driver.Wire.{Command, sizeof, sizeof_resp_capset_info}
use mvisor_win_vgpu_driver.Driver.{
  Driver, DrvCapset, VgpuBuffer, Effect, status_success, status_unsuccessful, null,
}
use mvisor_win_vgpu_driver.Os.{Os}
use mvisor_win_vgpu_driver.Interrupt.{serve}
use mvisor_win_vgpu_driver.Exec.{modify, return, ◌>>=◌, resume, Exec, Result, ok, leave, blocked}
use mvisor_win_vgpu_driver.Request.{Request}
use mvisor_win_vgpu_driver.Abi.{GetCaps, get_caps_of}
use mvisor_win_vgpu_driver.Command.Push.{
  Queue, control_queue, outstanding, set_outstanding, log_effect, queued, push_queue, send,
  allocate_command_buffer, queue_index,
}
use mvisor_win_vgpu_driver.Control.Params.{
  query, mark_initialized, capset_info_query, store_capset, get_caps_info, get_caps, on_driver,
  ensure_caps_info, ctl_get_params, send_caps, ctl_get_caps,
}
use mvisor_win_vgpu_driver.Control.Steady.{Steady, is_capset_query}
use mvisor_win_vgpu_driver.Control.Triples.{
  Triple, TripleAt, Ends-bind, Ends-return, Ends-leave_with, Ends-update_driver, Ends-if,
  Ends-before, Ends-get_driver, Stays-retrieve_input, Stays-retrieve_output, Stays-write_output,
}

-- A push either succeeds, and the buffer is the last of its queue, or leaves the driver alone.
abbrev PushedOr : Queue → VgpuBuffer → Driver → ℕ × Driver → Type 0
PushedOr q b d r =
    (r ≡ (
      status_success,
      log_effect (Effect.push (queue_index q) b.command)
          (set_outstanding q (outstanding q d ++ b ∷ []) d),
    ))
    ⊎ (r ≡ (status_unsuccessful, d))

queued-PushedOr :
    (ret : ℕ) (q : Queue) (b : VgpuBuffer) (d : Driver) → PushedOr q b d (queued ret q b d)
queued-PushedOr ret q b d = elim (Bool-cases (ret == 0)) [
  | inl e ↦ inl (rw e refl)
  | inr e ↦ inr (rw e refl)
]

module _ (os : Os) where
  send-PushedOr :
      (q : Queue) (command : Command) (n : ℕ) (b : VgpuBuffer) (d : Driver)
      → PushedOr q b d (send os q command n b d)
  unfolding send push_queue
  send-PushedOr q command n b d = elim (Bool-cases (ltb 0 n)) [
    | inl e ↦ rw e (queued-PushedOr _ q b d)
    | inr e ↦ rw e (queued-PushedOr _ q b d)
  ]

  -- A query leaves the queue as it was, or never returns; interrupts are served meanwhile.
  pub query-cases :
      (command : Command) (n : ℕ) (d : Driver)
      → (query os command n d
          ≡ (ok tt, serve os os.interrupts (log_effect (Effect.push 1 command) d)))
        ⊎ (query os command n d ≡ (blocked, serve os os.interrupts d))
  unfolding query allocate_command_buffer
  query-cases command n d =
      let b = allocate_command_buffer os (sizeof command.body) n true null command in
      elim (send-PushedOr control_queue command n b d) [
        | inl e ↦ inl (rw e refl)
        | inr e ↦ inr (rw e refl)
      ]

module _ (os : Os) (I : Driver → Type 0) (steady : Steady os I) where
  abbrev StableEnd : {A : Type 0} → Result A × Driver → Type 0
  StableEnd r = TripleAt I (λ _. I) r.0 r.1

  StableEnd-resume :
      {A B : Type 0} (r : Result A) (d : Driver) (k : A → Exec Driver B)
      → StableEnd (r, d)
      → ((a : A) (e : Driver) → I e → StableEnd (k a e))
      → StableEnd (resume r k d)
  StableEnd-resume (ok a) d k h next = next a d h
  StableEnd-resume (leave status) d k h next = h
  StableEnd-resume blocked d k h next = h

  StableEnd-bind :
      {A B : Type 0} (m : Exec Driver A) (k : A → Exec Driver B) (d : Driver)
      → StableEnd (m d)
      → ((a : A) (e : Driver) → I e → StableEnd (k a e))
      → StableEnd ((m >>= k) d)
  unfolding ◌>>=◌
  StableEnd-bind m k d h next = StableEnd-resume (m d).0 (m d).1 k h next

  query-Stays :
      (command : Command) (n : ℕ) (d : Driver)
      → is_capset_query command.hdr.ctrl_type ≡ true
      → I d
      → StableEnd (query os command n d)
  query-Stays command n d q o = elim (query-cases os command n d) [
    | inl e ↦ subst StableEnd (sym e) (steady.waited _ (steady.queried command d q o))
    | inr e ↦ subst StableEnd (sym e) (steady.waited d o)
  ]

  store_capset-Stays :
      (i : ℕ) (d : Driver)
      → I d
      → StableEnd
          (modify (λ d. record d { capsets = store_capset i (os.capset_info i) d.capsets }) d)
  unfolding modify
  store_capset-Stays i d o = steady.stored _ d o

  get_caps_info-Stays : (n i : ℕ) (d : Driver) → I d → StableEnd (get_caps_info os n i d)
  unfolding get_caps_info return
  get_caps_info-Stays zero i d o = o
  get_caps_info-Stays (suc n) i d o =
      StableEnd-bind _ _ d (query-Stays (capset_info_query i) sizeof_resp_capset_info d refl o)
        (λ _ e o.
          StableEnd-bind _ _ e (store_capset-Stays i e o)
            (λ _ e o. get_caps_info-Stays n (i + 1) e o))

  get_caps-Stays :
      (c : DrvCapset) (version : ℕ) (d : Driver) → I d → StableEnd (get_caps os c version d)
  unfolding get_caps return
  get_caps-Stays c version d o = StableEnd-bind _ _ d (query-Stays _ _ d refl o) (λ _ e o. o)

  Ends-on_driver :
      {A : Type 0} (m : Exec Driver A)
      → ((d : Driver) → I d → TripleAt I (λ _. I) (m d).0 (m d).1)
      → Triple I I (on_driver m) (λ _. I)
  unfolding on_driver
  Ends-on_driver m h = record { at = λ s o. h s.driver o }

  ensure_caps_info-Ends : Triple I I (ensure_caps_info os) (λ _. I)
  unfolding ensure_caps_info
  ensure_caps_info-Ends =
      Ends-bind (λ a d. (a ≡ d) × I d) _ _ (Ends-get_driver I)
        (λ d.
          Ends-before _ _ (λ x h. h.1)
            (Ends-if _ _ _ (Ends-return _ (λ d h. h)) (
              Ends-bind (λ _. I) _ _ (Ends-on_driver _ (get_caps_info-Stays _ 0))
                (λ _. Ends-update_driver mark_initialized (λ d o. steady.stored _ d o)))))

  pub get_params-Ends : (request : Request) → Triple I I (ctl_get_params os request) (λ _. I)
  unfolding ctl_get_params
  get_params-Ends request =
      Ends-bind (λ _. I) _ _ ensure_caps_info-Ends
        (λ _.
          Ends-bind (λ _. I) _ _ (Stays-retrieve_input I (λ d h. h) request _)
            (λ _.
              Ends-bind (λ _. I) _ _ (Stays-retrieve_output I (λ d h. h) request _)
                (λ status.
                  Ends-bind (λ a d. (a ≡ d) × I d) _ _ (Ends-get_driver I)
                    (λ d.
                      Ends-before _ _ (λ x h. h.1)
                        (Ends-bind (λ _. I) _ _ (Stays-write_output I _)
                          (λ _. Ends-return _ (λ d h. h)))))))

  send_caps-Ends :
      (request : Request) (get : GetCaps) (found : Option DrvCapset)
      → Triple I I (send_caps os request get found) (λ _. I)
  send_caps-Ends request get none = Ends-leave_with _ (λ d h. h)
  send_caps-Ends request get (some c) =
      Ends-bind (λ _. I) _ _ (Stays-retrieve_output I (λ d h. h) request _)
        (λ _.
          Ends-bind (λ _. I) _ _ (Ends-on_driver _ (get_caps-Stays c _))
            (λ bytes.
              Ends-bind (λ _. I) _ _ (Stays-write_output I _) (λ _. Ends-return _ (λ d h. h))))

  pub get_caps-Ends : (request : Request) → Triple I I (ctl_get_caps os request) (λ _. I)
  unfolding ctl_get_caps
  get_caps-Ends request =
      Ends-bind (λ _. I) _ _ (Stays-retrieve_input I (λ d h. h) request _)
        (λ _.
          Ends-bind (λ a d. (a ≡ d) × I d) _ _ (Ends-get_driver I)
            (λ d.
              Ends-before _ _ (λ x h. h.1) (send_caps-Ends request (get_caps_of request.input) _)))
