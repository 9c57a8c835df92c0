-- ===== src/Ioctl/OfContexts.antt =====
-- What bears on nothing but the contexts of kernelmode/vgpu: a request keeps it if the writes to the
-- list of contexts do.

pub mod Handlers
use mvisor_win_vgpu_driver.Common.{ℕ, ◌≡◌, refl, Bool, true, none, some, List, [], ◌∷◌, ◌==◌}
use mvisor_win_vgpu_driver.Wire.{Command}
use mvisor_win_vgpu_driver.Driver.{Driver, Context, Resource}
use mvisor_win_vgpu_driver.Os.{Os}
use mvisor_win_vgpu_driver.Exec.{Exec, ◌>>=◌}
use mvisor_win_vgpu_driver.Request.{Request, Io}
use mvisor_win_vgpu_driver.Lookup.{
  get_virgl_context_from_list, found_context-id, modify_context, update_resources,
  update_resource_state, write_resource, signal,
}
use mvisor_win_vgpu_driver.Command.Push.{Queue, send_command}
use mvisor_win_vgpu_driver.Command.Send.{
  create_virgl_context, transfer_host_3d, create_3d_resource, create_blob_resource,
  map_blob_resource, attach_resource_backing,
}
use mvisor_win_vgpu_driver.Control.Contexts.{
  insert_context, remove_context, ctl_destroy_virgl_context,
}
use mvisor_win_vgpu_driver.Interrupt.{serve}
use mvisor_win_vgpu_driver.Control.Resources.{
  current_context, insert_resource, remove_resource, create_backing, ctl_create_resource,
  ctl_create_blob_resource, ctl_close_resource,
}
use mvisor_win_vgpu_driver.Control.Submission.{ctl_transfer_host, ctl_submit_command}
use mvisor_win_vgpu_driver.Control.Triples.{
  Triple, Ends-bind, Ends-return, Ends-non_null, Ends-call_driver, Ends-update_driver, Ends-if,
  Ends-fact, Ends-current_context, Ends-before, Current, Stays-retrieve_input,
  Stays-retrieve_output, Stays-write_output, Stays-read_user_buffer,
}
use mvisor_win_vgpu_driver.Control.Steady.{Steady}
use mvisor_win_vgpu_driver.Control.Steady.Fences.{
  Stays-wait_in_fence, Stays-find_out_fence, Stays-take_fence_id, Stays-take_handles,
}
use mvisor_win_vgpu_driver.Ioctl.Alone.{
  Alone, send_command-Alone, submit_command-Alone, allocate-Alone, next_resource_id-Alone,
  next_fence_id-Alone, delete_resource-Alone, destroy-Alone,
}
use mvisor_win_vgpu_driver.Ioctl.Kept.{Kept}

-- The writes that a request makes: to the context of its process, of a first context for its
-- process, and of none. A wait may serve interrupts.
pub record OfContexts (os : Os) (I : Driver → Type 0) : Type 0 where
  pub elsewhere : (d d' : Driver) → Alone d d' → I d → I d'
  pub edited :
      (f : Context → Context) (d : Driver)
      → ((c : Context) → (f c).id ≡ c.id)
      → I d
      → I (modify_context os.process_id f d)
  pub inserted :
      (d : Driver)
      → get_virgl_context_from_list os.process_id d ≡ none
      → I d
      → I (insert_context os.process_id d)
  pub removed : (d : Driver) → I d → I (remove_context os.process_id d)
  pub waited : (d : Driver) → I d → I (serve os os.interrupts d)

pub update_resources-id :
    (ids : List ℕ) (busy : Bool) (fence : ℕ) (c : Context)
    → (update_resources ids busy fence c).id ≡ c.id
unfolding update_resources
update_resources-id [] busy fence c = refl
update_resources-id (i ∷ ids) busy fence c =
    update_resources-id ids busy fence (write_resource i (signal busy fence) c)

module _ (os : Os) (I : Driver → Type 0) (s : OfContexts os I) where
  pub sent :
      (q : Queue) (command : Command) (n : ℕ) (sync : Bool) (d : Driver)
      → I d
      → I (send_command os q command n sync d)
  sent q command n sync d h = s.elsewhere d _ (send_command-Alone os q command n sync d) h

  create_virgl_context-kept :
      (init : ℕ) (d : Driver) → I d → I (create_virgl_context os os.process_id init d)
  unfolding create_virgl_context
  create_virgl_context-kept init d h = sent _ _ _ _ d h

  pub marked :
      (ctx : ℕ) (ids : List ℕ) (n : ℕ) (busy : Bool) (fence : ℕ) (d : Driver)
      → ctx ≡ os.process_id
      → I d
      → I (update_resource_state ctx ids n busy fence d)
  unfolding update_resource_state
  marked ctx ids n busy fence d mine h = rw mine (s.edited _ d (update_resources-id _ busy fence) h)

  pub inserted_resource :
      (ctx : ℕ) (r : Resource) (d : Driver)
      → ctx ≡ os.process_id
      → I d
      → I (insert_resource ctx r d)
  unfolding insert_resource
  inserted_resource ctx r d mine h = rw mine (s.edited _ d (λ c. refl) h)

  pub removed_resource :
      (ctx id : ℕ) (d : Driver) → ctx ≡ os.process_id → I d → I (remove_resource ctx id d)
  unfolding remove_resource
  removed_resource ctx id d mine h = rw mine (s.edited _ d (λ c. refl) h)

  pub Steady-kept : Steady os I
  Steady-kept = record {
    waited = s.waited;
    shared = λ id x d h. s.edited _ d (λ c. refl) h;
    queried = λ c d q h. s.elsewhere d _ refl h;
    stored = λ c d h. s.elsewhere d _ refl h;
    inserted = s.inserted;
    created = create_virgl_context-kept;
  }

  -- A handler goes on with the context of its process.
  pub with_own :
      {A : Type 0} (k : Context → Exec Io A)
      → ((c : Context) → c.id ≡ os.process_id → Triple I I (k c) (λ _. I))
      → Triple I I (current_context os >>= k) (λ _. I)
  with_own k next =
      Ends-bind (Current I (λ d h. h) os) _ _ (Ends-current_context I (λ d h. h) os) (λ c.
        Ends-before _ _ (λ d h. (found_context-id os.process_id d c h.1, h.0))
          (Ends-fact _ (λ mine. next c mine)))
