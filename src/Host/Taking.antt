-- ===== src/Host/Taking.antt =====
-- The identifiers, the resources and the memory that the handlers of kernelmode/vgpu/control.c take
-- and give, as far as they bear on the host.
use native.Mathlib.Nat.{mod-eq_of_lt}
use mvisor_win_vgpu_driver.Common.{
  ℕ, ◌+◌, ◌^◌, ◌<◌, ◌≡◌, refl, some, List, [], ◌∷◌, arith, sum_of, ==→eq,
}
use mvisor_win_vgpu_driver.Driver.{Driver, Context, Resource}
use mvisor_win_vgpu_driver.Os.{Os}
use mvisor_win_vgpu_driver.Idr.{get_id_from_idr_without_cache}
use mvisor_win_vgpu_driver.Lookup.{get_virgl_context_from_list, get_resource_from_list}
use mvisor_win_vgpu_driver.Control.Resources.{
  next_resource_id, insert_resource, remove_resource, allocate,
}
use mvisor_win_vgpu_driver.Ownership.Totals.{total}
use mvisor_win_vgpu_driver.Ownership.Steps.{next_id, Grows-insert_resource}
use mvisor_win_vgpu_driver.Ownership.Taking.{Drops-remove_resource}
use mvisor_win_vgpu_driver.Host.{absent}
use mvisor_win_vgpu_driver.Host.Invariant.{
  Hands, empty, holds, seen, view, bears, Follows, Follows-moves, Follows-Drops, same-eq, same_self,
}

pub sum_of-none {ℓ} : {A : Type ℓ} (g : A → ℕ) (xs : List A) → ((x : A) → g x ≡ 0) → sum_of g xs ≡ 0
sum_of-none g [] none_there = refl
sum_of-none g (x ∷ xs) none_there = omega (arith, none_there x, sum_of-none g xs none_there)

bears-absent : (i : ℕ) (r : Resource) → bears i absent r ≡ 0
bears-absent i r = ground arith

-- The driver takes none of its resources not to exist.
total-absent : (i : ℕ) (d : Driver) → total (seen i absent) d ≡ 0
total-absent i d = omega (
  arith,
  sum_of-none (λ c. sum_of (bears i absent) c.resources) d.contexts
      (λ c. sum_of-none (bears i absent) c.resources (bears-absent i)),
  sum_of-none (λ b. 0) d.command_queue (λ b. refl),
  sum_of-none (λ b. 0) d.control_queue (λ b. refl),
)

-- The next identifier is not known to the host.
pub next_resource_id-Follows :
    (d : Driver)
    → next_id d < 2 ^ 32
    → Follows empty d
    → let (id, d') = next_resource_id d in Follows (holds id absent empty) d' × (id < next_id d')
unfolding next_resource_id get_id_from_idr_without_cache
next_resource_id-Follows d room f =
    let m = mod-eq_of_lt {n = next_id d} {m = 2 ^ 32} room in
    let m' = mod-eq_of_lt {n = next_id d + 1} {m = 2 ^ 64} (omega arith) in
    let gone = f.unknown (next_id d) (omega arith) in
    rw (m, m')
      (
        record {
          table = f.table;
          in_order = f.in_order;
          agrees = λ i s.
              ground (
                arith,
                f.agrees i s,
                total-absent i d,
                gone,
                ==→eq i (next_id d),
                same-eq absent s,
              );
          unknown = λ i h. f.unknown i (omega (arith, h));
        },
        omega arith,
      )

pub insert_resource-Follows :
    (ctx : ℕ) (r : Resource) (e : Hands) (d : Driver)
    → Follows (holds r.id (view r) e) d
    → Follows e (insert_resource ctx r d)
unfolding insert_resource
insert_resource-Follows ctx r e d f =
    Follows-moves (λ v. v.of_resource r) _ e d _ (Grows-insert_resource ctx r d) refl
      (λ i s. ground arith) f

pub remove_resource-Follows :
    (ctx id : ℕ) (c : Context) (r : Resource) (e : Hands) (d : Driver)
    → get_virgl_context_from_list ctx d ≡ some c
    → get_resource_from_list id c ≡ some r
    → Follows e d
    → Follows (holds r.id (view r) e) (remove_resource ctx id d)
unfolding remove_resource
remove_resource-Follows ctx id c r e d at there f =
    Follows-Drops r e d _ (Drops-remove_resource ctx id c r d at there) refl f

-- A resource that the driver finds is at the host, in the state that the driver takes it to be in.
pub found-state :
    (ctx id : ℕ) (c : Context) (r : Resource) (e : Hands) (d : Driver) (f : Follows e d)
    → get_virgl_context_from_list ctx d ≡ some c
    → get_resource_from_list id c ≡ some r
    → f.table r.id ≡ view r
found-state ctx id c r e d f at there =
    let g = Drops-remove_resource ctx id c r d at there in
    same-eq (f.table r.id) (view r)
      (ground (arith, f.agrees r.id (view r), g.light (seen r.id (view r)), same_self (view r)))

pub allocate-Follows :
    (os : Os) (size : ℕ) (e : Hands) (d : Driver) → Follows e d → Follows e (allocate os size d).1
unfolding allocate
allocate-Follows os size e d f = record {
  table = f.table;
  in_order = f.in_order;
  agrees = f.agrees;
  unknown = f.unknown;
}
