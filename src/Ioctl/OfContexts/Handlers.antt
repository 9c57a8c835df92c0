-- ===== src/Ioctl/OfContexts/Handlers.antt =====
-- The handlers of kernelmode/vgpu/control.c: what bears on nothing but the contexts is kept by each
-- of them.
use mvisor_win_vgpu_driver.Common.{ℕ, ◌≡◌, Bool, true, some, ◌==◌}
use mvisor_win_vgpu_driver.Driver.{Driver, Context, Resource}
use mvisor_win_vgpu_driver.Os.{Os}
use mvisor_win_vgpu_driver.Request.{Request}
use mvisor_win_vgpu_driver.Lookup.{get_virgl_context_from_list, found_context-id}
use mvisor_win_vgpu_driver.Command.Send.{
  transfer_host_3d, create_3d_resource, create_blob_resource, map_blob_resource,
  attach_resource_backing,
}
use mvisor_win_vgpu_driver.Control.Contexts.{remove_context, ctl_destroy_virgl_context}
use mvisor_win_vgpu_driver.Control.Resources.{
  create_backing, ctl_create_resource, ctl_create_blob_resource, ctl_close_resource,
}
use mvisor_win_vgpu_driver.Control.Submission.{ctl_transfer_host, ctl_submit_command}
use mvisor_win_vgpu_driver.Control.Triples.{
  Triple, Ends-bind, Ends-return, Ends-non_null, Ends-call_driver, Ends-update_driver, Ends-if,
  Stays-retrieve_input, Stays-retrieve_output, Stays-write_output, Stays-read_user_buffer,
}
use mvisor_win_vgpu_driver.Control.Steady.Fences.{
  Stays-wait_in_fence, Stays-find_out_fence, Stays-take_fence_id, Stays-take_handles,
}
use mvisor_win_vgpu_driver.Ioctl.Alone.{
  submit_command-Alone, allocate-Alone, next_resource_id-Alone, next_fence_id-Alone,
  delete_resource-Alone, destroy-Alone,
}
use mvisor_win_vgpu_driver.Ioctl.Kept.{Kept}
use mvisor_win_vgpu_driver.Ioctl.OfContexts.{
  OfContexts, sent, inserted_resource, removed_resource, marked, with_own, Steady-kept,
}

module _ (os : Os) (I : Driver → Type 0) (s : OfContexts os I) where
  create_backing-kept :
      (ctx id size : ℕ) (stale : Resource)
      → Triple I I (create_backing os ctx stale id size) (λ _. I)
  unfolding create_backing attach_resource_backing
  create_backing-kept ctx id size stale = Ends-if (size == 1) _ _ (Ends-return _ (λ d h. h)) (
      Ends-bind (λ _. I) _ _ (Ends-call_driver _ (λ d h. s.elsewhere d _ (allocate-Alone os _ d) h))
        (λ found.
          Ends-bind (λ _. I) _ _ (Ends-non_null found _ (λ d h. h) (λ m d e h. h))
            (λ m.
              Ends-bind (λ _. I) _ _ (Ends-update_driver _ (λ d h. sent os I s _ _ _ _ d h))
                (λ _. Ends-return _ (λ d h. h)))))

  create_resource-kept : (request : Request) → Triple I I (ctl_create_resource os request) (λ _. I)
  unfolding ctl_create_resource create_3d_resource
  create_resource-kept request =
      Ends-bind (λ _. I) _ _ (Stays-retrieve_input I (λ d h. h) request _)
        (λ _.
          Ends-bind (λ _. I) _ _ (Stays-retrieve_output I (λ d h. h) request _)
            (λ _. with_own os I s _ (λ c mine.
              Ends-bind (λ _. I) _ _ (Ends-non_null _ _ (λ d h. h) (λ x d e h. h))
                (λ stale.
                  Ends-bind (λ _. I) _ _
                    (Ends-call_driver _ (λ d h. s.elsewhere d _ (next_resource_id-Alone d) h))
                    (λ id.
                      Ends-bind (λ _. I) _ _ (Ends-update_driver _ (λ d h. sent os I s _ _ _ _ d h))
                        (λ _.
                          Ends-bind (λ _. I) _ _ (create_backing-kept c.id id _ stale)
                            (λ r.
                              Ends-bind (λ _. I) _ _
                                (Ends-update_driver _
                                  (λ d h. inserted_resource os I s c.id r d mine h))
                                (λ _.
                                  Ends-bind (λ _. I) _ _ (Stays-write_output I _)
                                    (λ _. Ends-return _ (λ d h. h))))))))))

  create_blob_resource-kept :
      (request : Request) → Triple I I (ctl_create_blob_resource os request) (λ _. I)
  unfolding ctl_create_blob_resource create_blob_resource map_blob_resource
  create_blob_resource-kept request =
      Ends-bind (λ _. I) _ _ (Stays-retrieve_input I (λ d h. h) request _)
        (λ _.
          Ends-bind (λ _. I) _ _ (Stays-retrieve_output I (λ d h. h) request _)
            (λ _. with_own os I s _ (λ c mine.
              Ends-bind (λ _. I) _ _ (Ends-non_null _ _ (λ d h. h) (λ x d e h. h))
                (λ stale.
                  Ends-bind (λ _. I) _ _
                    (Ends-call_driver _ (λ d h. s.elsewhere d _ (next_resource_id-Alone d) h))
                    (λ id.
                      Ends-bind (λ _. I) _ _ (Ends-update_driver _ (λ d h. sent os I s _ _ _ _ d h))
                        (λ _.
                          Ends-bind (λ _. I) _ _
                            (Ends-update_driver _ (λ d h. inserted_resource os I s c.id _ d mine h))
                            (λ _.
                              Ends-bind (λ _. I) _ _
                                (Ends-update_driver _ (λ d h. sent os I s _ _ _ _ d h))
                                (λ _.
                                  Ends-bind (λ _. I) _ _ (Stays-write_output I _)
                                    (λ _. Ends-return _ (λ d h. h))))))))))

  close_resource-kept : (request : Request) → Triple I I (ctl_close_resource os request) (λ _. I)
  unfolding ctl_close_resource
  close_resource-kept request =
      Ends-bind (λ _. I) _ _ (Stays-retrieve_input I (λ d h. h) request _)
        (λ _. with_own os I s _ (λ c mine.
          Ends-bind (λ _. I) _ _ (Ends-non_null _ _ (λ d h. h) (λ x d e h. h))
            (λ r.
              Ends-bind (λ _. I) _ _
                (Ends-update_driver _ (λ d h. removed_resource os I s c.id _ d mine h))
                (λ _.
                  Ends-bind (λ _. I) _ _
                    (Ends-update_driver _
                      (λ d h. s.elsewhere d _ (delete_resource-Alone os c.id r d) h))
                    (λ _. Ends-return _ (λ d h. h))))))

  transfer_host-kept :
      (to_host : Bool) (request : Request)
      → Triple I I (ctl_transfer_host os to_host request) (λ _. I)
  unfolding ctl_transfer_host transfer_host_3d
  transfer_host-kept to_host request =
      Ends-bind (λ _. I) _ _ (Stays-retrieve_input I (λ d h. h) request _)
        (λ _. with_own os I s _ (λ c mine.
          Ends-bind (λ _. I) _ _ (Ends-non_null _ _ (λ d h. h) (λ x d e h. h))
            (λ r.
              Ends-bind (λ _. I) _ _
                (Ends-update_driver _ (λ d h. marked os I s c.id _ 1 true 0 d mine h))
                (λ _.
                  Ends-bind (λ _. I) _ _ (Ends-update_driver _ (λ d h. sent os I s _ _ _ _ d h))
                    (λ _. Ends-return _ (λ d h. h))))))

  submit_command-kept : (request : Request) → Triple I I (ctl_submit_command os request) (λ _. I)
  unfolding ctl_submit_command
  submit_command-kept request =
      let here : (d : Driver) → I d → I d = λ d h. h in
      Ends-bind (λ _. I) _ _ (Stays-retrieve_input I here request _)
        (λ _. with_own os I s _ (λ c mine.
          Ends-bind (λ _. I) _ _ (Stays-wait_in_fence os I I here _)
            (λ _.
              Ends-bind (λ _. I) _ _ (Stays-find_out_fence os I I here _)
                (λ out_fence.
                  Ends-bind (λ _. I) _ _ (Stays-read_user_buffer I here os _ _)
                    (λ _.
                      Ends-bind (λ _. I) _ _
                        (Ends-call_driver _ (λ d h. s.elsewhere d _ (allocate-Alone os _ d) h))
                        (λ found.
                          Ends-bind (λ _. I) _ _ (Ends-non_null found _ here (λ x d e h. h))
                            (λ m.
                              Ends-bind (λ _. I) _ _
                                (Stays-take_fence_id os I I here out_fence
                                  (λ d h. s.elsewhere d _ (next_fence_id-Alone d) h))
                                (λ fence.
                                  Ends-bind (λ _. I) _ _
                                    (Stays-take_handles os I I here c _ fence
                                      (λ ids n d h. marked os I s c.id ids n true fence d mine h))
                                    (λ ids. Ends-call_driver _ (λ d h.
                                      s.elsewhere d _
                                        (submit_command-Alone os c.id m _ _ ids _ fence out_fence d)
                                        h))))))))))

  destroyed-kept :
      (c : Context) (d : Driver)
      → get_virgl_context_from_list os.process_id d ≡ some c
      → I d
      → I (ctl_destroy_virgl_context os c d).1
  destroyed-kept c d at h =
      s.elsewhere (remove_context c.id d) _ (destroy-Alone os c d)
        (rw (found_context-id os.process_id d c at) (s.removed d h))

  pub OfContexts-Kept : Kept os I I
  OfContexts-Kept = record {
    weaker = λ d h. h;
    steady = Steady-kept os I s;
    destroyed = destroyed-kept;
    create = create_resource-kept;
    create_blob = create_blob_resource-kept;
    close = close_resource-kept;
    submit = submit_command-kept;
    transfer = transfer_host-kept;
  }
