-- ===== src/Ownership/Totals.antt =====
-- Sums over the resources and the outstanding buffers of the driver of kernelmode/vgpu, and how the
-- writes to its lists change them.
use mvisor_win_vgpu_driver.Common.{
  ℕ, ◌+◌, ◌≤◌, ◌≡◌, ◌∙◌, refl, Bool, true, false, not, some, List, [], ◌∷◌, arith, ◌||◌, find_first,
  modify_first, remove_first, sum_of, take,
}
use mvisor_win_vgpu_driver.Wire.{CtrlType}
use mvisor_win_vgpu_driver.Driver.{Driver, Context, Resource, VgpuBuffer, ShareDescriptor}
use mvisor_win_vgpu_driver.Control.Waiting.{set_share}
use mvisor_win_vgpu_driver.Lookup.{
  has_resource_id, has_context_id, modify_context, write_resource, signal, update_resources,
  update_resource_state,
}

abbrev pub is_submit : CtrlType → Bool
is_submit CtrlType.submit_3d = true
is_submit _ = false

abbrev pub is_map_blob : CtrlType → Bool
is_map_blob CtrlType.resource_map_blob = true
is_map_blob _ = false

-- A command whose completion uses no memory and no resource's mapping.
abbrev pub is_quiet : CtrlType → Bool
is_quiet t = not (is_submit t || is_map_blob t)

-- Weights for resources and outstanding buffers that neither a resource's state nor its share nor a
-- quiet command bears on.
pub record Measure : Type 0 where
  pub of_resource : Resource → ℕ
  pub of_buffer : VgpuBuffer → ℕ
  pub signalled :
      (busy : Bool) (fence : ℕ) (r : Resource) → of_resource (signal busy fence r) ≡ of_resource r
  pub shared : (s : ShareDescriptor) (r : Resource) → of_resource (set_share s r) ≡ of_resource r
  pub quiet : (b : VgpuBuffer) → is_quiet b.command.hdr.ctrl_type ≡ true → of_buffer b ≡ 0

abbrev pub in_contexts : (Resource → ℕ) → List Context → ℕ
in_contexts g = sum_of (λ c. sum_of g c.resources)

abbrev pub in_queues : (VgpuBuffer → ℕ) → Driver → ℕ
in_queues h d = sum_of h d.command_queue + sum_of h d.control_queue

abbrev pub total : Measure → Driver → ℕ
total v d = in_contexts v.of_resource d.contexts + in_queues v.of_buffer d

sum_of-less :
    (g g' : Resource → ℕ) (rs : List Resource)
    → ((r : Resource) → g r ≤ g' r)
    → sum_of g rs ≤ sum_of g' rs
sum_of-less g g' [] less = omega arith
sum_of-less g g' (r ∷ rs) less = omega (arith, less r, sum_of-less g g' rs less)

-- A write to a resource adds at most what it adds to any resource with the identifier.
pub sum_of-modify :
    (g g' : Resource → ℕ) (p : Resource → Bool) (u : Resource → Resource) (rs : List Resource)
    → ((r : Resource) → p r ≡ true → g (u r) ≤ g' r)
    → ((r : Resource) → g r ≤ g' r)
    → sum_of g (modify_first p u rs) ≤ sum_of g' rs
sum_of-modify g g' p u [] more less = omega arith
sum_of-modify g g' p u (r ∷ rs) more less =
    ground (arith, more r, less r, sum_of-modify g g' p u rs more less, sum_of-less g g' rs less)

module _ (g : Resource → ℕ) where
  -- What is taken off a list.
  pub sum_of-remove_first :
      (p : Resource → Bool) (rs : List Resource) (r : Resource)
      → find_first p rs ≡ some r
      → g r + sum_of g (remove_first p rs) ≡ sum_of g rs
  sum_of-remove_first p [] r e = ground arith
  sum_of-remove_first p (x ∷ rs) r e = ground (arith, sum_of-remove_first p rs r)

  pub in_contexts-remove_first :
      (p : Context → Bool) (cs : List Context) (c : Context)
      → find_first p cs ≡ some c
      → sum_of g c.resources + in_contexts g (remove_first p cs) ≡ in_contexts g cs
  in_contexts-remove_first p [] c e = ground arith
  in_contexts-remove_first p (x ∷ cs) c e = ground (arith, in_contexts-remove_first p cs c)

  -- The first context is written to, so what it loses is lost in all.
  pub in_contexts-modify_found :
      (p : Context → Bool) (u : Context → Context) (k : ℕ) (cs : List Context) (c : Context)
      → find_first p cs ≡ some c
      → k + sum_of g (u c).resources ≡ sum_of g c.resources
      → k + in_contexts g (modify_first p u cs) ≡ in_contexts g cs
  in_contexts-modify_found p u k [] c e lost = ground arith
  in_contexts-modify_found p u k (x ∷ cs) c e lost =
      ground (arith, lost, in_contexts-modify_found p u k cs c)

  pub in_contexts-less :
      (g' : Resource → ℕ) (cs : List Context)
      → ((r : Resource) → g r ≤ g' r)
      → in_contexts g cs ≤ in_contexts g' cs
  in_contexts-less g' [] less = omega arith
  in_contexts-less g' (c ∷ cs) less =
      omega (arith, sum_of-less g g' c.resources less, in_contexts-less g' cs less)

  -- A write to a context adds at most what it adds to any context.
  pub in_contexts-modify :
      (g' : Resource → ℕ) (p : Context → Bool) (u : Context → Context) (k : ℕ) (cs : List Context)
      → ((c : Context) → sum_of g (u c).resources ≤ k + sum_of g' c.resources)
      → ((r : Resource) → g r ≤ g' r)
      → in_contexts g (modify_first p u cs) ≤ k + in_contexts g' cs
  in_contexts-modify g' p u k [] more less = omega arith
  in_contexts-modify g' p u k (c ∷ cs) more less = ground (
    arith,
    more c,
    sum_of-less g g' c.resources less,
    in_contexts-modify g' p u k cs more less,
    in_contexts-less g' cs less,
  )

-- The loop of `UpdateResourceState` changes no weight.
sum_of-update_resources :
    (v : Measure) (ids : List ℕ) (busy : Bool) (fence : ℕ) (c : Context)
    → sum_of v.of_resource (update_resources ids busy fence c).resources
      ≤ sum_of v.of_resource c.resources
unfolding update_resources
sum_of-update_resources v [] busy fence c = omega arith
sum_of-update_resources v (id ∷ ids) busy fence c = omega (
  arith,
  sum_of-update_resources v ids busy fence (write_resource id (signal busy fence) c),
  sum_of-modify v.of_resource v.of_resource (has_resource_id id) (signal busy fence) c.resources
      (λ r _. omega (arith, v.signalled busy fence r)) (λ r. omega arith),
)

-- A step that leaves the allocator and the identifiers alone, and adds at most a weight.
pub record Grows (k : Measure → ℕ) (d d' : Driver) : Type 0 where
  pub memory : d'.memory ≡ d.memory
  pub idrs : d'.idrs ≡ d.idrs
  pub light : (v : Measure) → total v d' ≤ k v + total v d

-- A step that adds none.
abbrev pub Calm : Driver → Driver → Type 0
Calm = Grows (λ _. 0)

pub Calm-refl : (d : Driver) → Calm d d
Calm-refl d = record { memory = refl; idrs = refl; light = λ v. omega arith }

pub Grows-trans :
    (j k : Measure → ℕ) (a b c : Driver) → Grows j a b → Grows k b c → Grows (λ v. j v + k v) a c
Grows-trans j k a b c x y = record {
  memory = y.memory ∙ x.memory;
  idrs = y.idrs ∙ x.idrs;
  light = λ v. omega (arith, x.light v, y.light v);
}

pub Calm-update_resource_state :
    (ctx : ℕ) (ids : List ℕ) (n : ℕ) (busy : Bool) (fence : ℕ) (d : Driver)
    → Calm d (update_resource_state ctx ids n busy fence d)
unfolding update_resource_state
Calm-update_resource_state ctx ids n busy fence d = record {
  memory = refl;
  idrs = refl;
  light = λ v. omega (
    arith,
    in_contexts-modify v.of_resource v.of_resource (has_context_id ctx)
        (update_resources (take n ids) busy fence) 0 d.contexts
        (λ c. omega (arith, sum_of-update_resources v (take n ids) busy fence c))
        (λ r. omega arith),
  );
}

pub Calm-set_share :
    (ctx id : ℕ) (s : ShareDescriptor) (d : Driver)
    → Calm d (modify_context ctx (write_resource id (set_share s)) d)
Calm-set_share ctx id s d = record {
  memory = refl;
  idrs = refl;
  light = λ v. omega (
    arith,
    in_contexts-modify v.of_resource v.of_resource (has_context_id ctx)
        (write_resource id (set_share s)) 0 d.contexts
        (λ c. omega (
          arith,
          sum_of-modify v.of_resource v.of_resource (has_resource_id id) (set_share s) c.resources
              (λ r _. omega (arith, v.shared s r)) (λ r. omega arith),
        ))
        (λ r. omega arith),
  );
}
