-- ===== src/Ownership/Taking.antt =====
-- What kernelmode/vgpu takes off its lists: resources, contexts and returned buffers, whose claims
-- pass to the handler; and the write of a blob's mapping.

use mvisor_win_vgpu_driver.Common.{
  ℕ, ◌+◌, ◌≤◌, ◌≡◌, refl, sym, true, some, List, [], ◌∷◌, arith, sum_of, get_elem?, remove_at,
  remove_first, modify_first, sum_of-remove_at,
}
use mvisor_win_vgpu_driver.Wire.{CtrlType}
use mvisor_win_vgpu_driver.Driver.{Driver, Context, Resource, VgpuBuffer}
use mvisor_win_vgpu_driver.Lookup.{
  has_resource_id, has_context_id, get_resource_from_list, get_virgl_context_from_list,
  modify_context, write_resource,
}
use mvisor_win_vgpu_driver.Command.Push.{
  Queue, command_queue, control_queue, outstanding, set_outstanding,
}
use mvisor_win_vgpu_driver.Interrupt.{resource_of, set_mapping}
use mvisor_win_vgpu_driver.Control.Contexts.{remove_context}
use mvisor_win_vgpu_driver.Control.Resources.{remove_resource}
use mvisor_win_vgpu_driver.Ownership.Memory.{Claim, Backs-less}
use mvisor_win_vgpu_driver.Ownership.Totals.{
  Measure, total, in_contexts, in_contexts-modify_found, in_contexts-remove_first,
  sum_of-remove_first,
}
use mvisor_win_vgpu_driver.Ownership.Invariant.{
  Owned, Extra, claims, named, mapping, plain_named, claimed, resource_weight, buffer_weight, maps,
  names, names_plain,
}

-- A step that takes away a weight.
pub record Drops (k : Measure → ℕ) (d d' : Driver) : Type 0 where
  pub memory : d'.memory ≡ d.memory
  pub idrs : d'.idrs ≡ d.idrs
  pub light : (v : Measure) → k v + total v d' ≤ total v d

pub Drops-Owned :
    (k : Measure → ℕ) (e : Extra) (d d' : Driver)
    → Drops k d d'
    → Owned e d
    → Owned (λ f. k (claims f) + e f) d'
Drops-Owned k e d d' g o = record {
  backs = rw g.memory (
      Backs-less (claimed e d) (claimed (λ f. k (claims f) + e f) d') d.memory
        (λ f. omega (arith, g.light (claims f))) o.backs);
  fresh = λ j h. omega (arith, g.light (named j), o.fresh j (rw (sym g.idrs) h));
  blobs = λ j h. omega (
    arith,
    g.light (mapping j),
    g.light (plain_named j),
    o.blobs j (omega (arith, h, g.light (mapping j))),
  );
}

pub Drops-remove_resource :
    (ctx id : ℕ) (c : Context) (r : Resource) (d : Driver)
    → get_virgl_context_from_list ctx d ≡ some c
    → get_resource_from_list id c ≡ some r
    → Drops (λ v. v.of_resource r) d (remove_resource ctx id d)
unfolding get_virgl_context_from_list get_resource_from_list remove_resource
Drops-remove_resource ctx id c r d at there = record {
  memory = refl;
  idrs = refl;
  light = λ v. omega (
    arith,
    in_contexts-modify_found v.of_resource (has_context_id ctx)
        (λ c. record c { resources = remove_first (has_resource_id id) c.resources })
        (v.of_resource r) d.contexts c at
        (sum_of-remove_first v.of_resource (has_resource_id id) c.resources r there),
  );
}

pub remove_resource-Owned :
    (e : Extra) (ctx id : ℕ) (c : Context) (r : Resource) (d : Driver)
    → get_virgl_context_from_list ctx d ≡ some c
    → get_resource_from_list id c ≡ some r
    → Owned e d
    → Owned (λ f. resource_weight f r + e f) (remove_resource ctx id d)
remove_resource-Owned e ctx id c r d at there o =
    Drops-Owned (λ v. v.of_resource r) e d _ (Drops-remove_resource ctx id c r d at there) o

pub Drops-remove_context :
    (ctx : ℕ) (c : Context) (d : Driver)
    → get_virgl_context_from_list ctx d ≡ some c
    → Drops (λ v. sum_of v.of_resource c.resources) d (remove_context ctx d)
unfolding get_virgl_context_from_list
Drops-remove_context ctx c d at = record {
  memory = refl;
  idrs = refl;
  light = λ v.
      omega (arith, in_contexts-remove_first v.of_resource (has_context_id ctx) d.contexts c at);
}

pub remove_context-Owned :
    (e : Extra) (ctx : ℕ) (c : Context) (d : Driver)
    → get_virgl_context_from_list ctx d ≡ some c
    → Owned e d
    → Owned (λ f. sum_of (resource_weight f) c.resources + e f) (remove_context ctx d)
remove_context-Owned e ctx c d at o =
    Drops-Owned (λ v. sum_of v.of_resource c.resources) e d _ (Drops-remove_context ctx c d at) o

pub Drops-take_buffer :
    (q : Queue) (i : ℕ) (b : VgpuBuffer) (d : Driver)
    → get_elem? (outstanding q d) i ≡ some b
    → Drops (λ v. v.of_buffer b) d (set_outstanding q (remove_at (outstanding q d) i) d)
Drops-take_buffer command_queue i b d at = record {
  memory = refl;
  idrs = refl;
  light = λ v. omega (arith, sum_of-remove_at v.of_buffer d.command_queue i b at);
}
Drops-take_buffer control_queue i b d at = record {
  memory = refl;
  idrs = refl;
  light = λ v. omega (arith, sum_of-remove_at v.of_buffer d.control_queue i b at);
}

-- A returned buffer gives up its claim; if it maps a blob, no other resource has its identifier.
pub take_buffer-Owned :
    (e : Extra) (q : Queue) (i : ℕ) (b : VgpuBuffer) (d : Driver)
    → get_elem? (outstanding q d) i ≡ some b
    → Owned e d
    → Owned (λ f. buffer_weight f b + e f) (set_outstanding q (remove_at (outstanding q d) i) d)
take_buffer-Owned e q i b d at o =
    Drops-Owned (λ v. v.of_buffer b) e d _ (Drops-take_buffer q i b d at) o

pub take_buffer-mapped :
    (e : Extra) (q : Queue) (i : ℕ) (b : VgpuBuffer) (d : Driver)
    → get_elem? (outstanding q d) i ≡ some b
    → b.command.hdr.ctrl_type ≡ CtrlType.resource_map_blob
    → Owned e d
    → total
        (plain_named (resource_of b.command.body))
        (set_outstanding q (remove_at (outstanding q d) i) d)
      ≡ 0
take_buffer-mapped e q i b d at t o =
    let j = resource_of b.command.body in
    let g = Drops-take_buffer q i b d at in
    let one : maps j b ≡ 1 = rw t (ground arith) in
    omega (arith, g.light (plain_named j), one, o.blobs j (omega (arith, g.light (mapping j), one)))

-- A write to resources that a weight excludes.
sum_of-modify_none :
    (g p : Resource → ℕ) (id : ℕ) (u : Resource → Resource) (rs : List Resource)
    → ((r : Resource) → has_resource_id id r ≡ true → p r ≡ 0 → g (u r) ≤ g r)
    → sum_of p rs ≡ 0
    → sum_of g (modify_first (has_resource_id id) u rs) ≤ sum_of g rs
sum_of-modify_none g p id u [] keep none_left = omega arith
sum_of-modify_none g p id u (r ∷ rs) keep none_left =
    ground (arith, keep r, sum_of-modify_none g p id u rs keep)

in_contexts-write_none :
    (g p : Resource → ℕ) (ctx id : ℕ) (u : Resource → Resource) (cs : List Context)
    → ((r : Resource) → has_resource_id id r ≡ true → p r ≡ 0 → g (u r) ≤ g r)
    → in_contexts p cs ≡ 0
    → in_contexts g (modify_first (has_context_id ctx) (write_resource id u) cs) ≤ in_contexts g cs
in_contexts-write_none g p ctx id u [] keep none_left = omega arith
in_contexts-write_none g p ctx id u (c ∷ cs) keep none_left = ground (
  arith,
  sum_of-modify_none g p id u c.resources keep,
  in_contexts-write_none g p ctx id u cs keep,
)

set_mapping-keeps :
    (id address size : ℕ) (r : Resource)
    → has_resource_id id r ≡ true
    → names_plain id r ≡ 0
    → (f : Claim → ℕ) → resource_weight f (set_mapping address size r) ≤ resource_weight f r
set_mapping-keeps id address size r at blob f = ground arith

-- The mapping of a blob is written to blobs only.
pub set_mapping-Owned :
    (e : Extra) (ctx id address size : ℕ) (d : Driver)
    → total (plain_named id) d ≡ 0
    → Owned e d
    → Owned e (modify_context ctx (write_resource id (set_mapping address size)) d)
set_mapping-Owned e ctx id address size d none_plain o =
    let u = set_mapping address size in
    let rest : in_contexts (names_plain id) d.contexts ≡ 0 = omega (arith, none_plain) in
    record {
      backs =
          Backs-less (claimed e d) _ d.memory
            (λ f. omega (
              arith,
              in_contexts-write_none (resource_weight f) (names_plain id) ctx id u d.contexts
                  (λ r at blob. set_mapping-keeps id address size r at blob f) rest,
            ))
            o.backs;
      fresh = λ j h. omega (
        arith,
        o.fresh j h,
        in_contexts-write_none (names j) (names_plain id) ctx id u d.contexts
            (λ r at blob. omega arith) rest,
      );
      blobs = λ j h. omega (
        arith,
        o.blobs j (
            omega (
              arith,
              h,
              in_contexts-write_none (λ r. 0) (names_plain id) ctx id u d.contexts
                  (λ r at blob. omega arith) rest,
            )),
        in_contexts-write_none (names_plain j) (names_plain id) ctx id u d.contexts
            (λ r at blob. omega arith) rest,
      );
    }
