-- ===== src/Host/Invariant.antt =====
-- What the host and the driver of kernelmode/vgpu have in common: every resource of the driver is in
-- the state at the host that the driver takes it to be in.
use mvisor_win_vgpu_driver.Common.{
  ℕ, ◌+◌, ◌≤◌, ◌≡◌, refl, sym, Bool, true, ◌&&◌, some, arith, ◌==◌, if◌then◌else◌,
}
use mvisor_win_vgpu_driver.Driver.{Driver, Resource}
use mvisor_win_vgpu_driver.Lookup.{signal}
use mvisor_win_vgpu_driver.Ownership.Totals.{Measure, total, Grows, Calm}
use mvisor_win_vgpu_driver.Ownership.Taking.{Drops}
use mvisor_win_vgpu_driver.Host.{
  HostState, absent, bare, backed, unmapped, mapped, same, Table, served,
}

-- The state that the driver takes a resource to be in.
abbrev pub view : Resource → HostState
view r = if r.for_buffer then (if r.for_blob then mapped else backed) else bare

abbrev pub bears : ℕ → HostState → Resource → ℕ
bears i s r = if r.id == i && same (view r) s then 1 else 0

pub bears-signal :
    (i : ℕ) (s : HostState) (busy : Bool) (fence : ℕ) (r : Resource)
    → bears i s (signal busy fence r) ≡ bears i s r
unfolding signal
bears-signal i s busy fence r = ground arith

-- How many resources have the identifier and are taken to be in the state.
abbrev pub seen : ℕ → HostState → Measure
seen i s = record {
  of_resource = bears i s;
  of_buffer = λ b. 0;
  signalled = bears-signal i s;
  shared = λ d r. refl;
  quiet = λ b e. refl;
}

-- Resources in the hands of a handler, and the state that it knows them to be in.
abbrev pub Hands : Type 0
Hands = ℕ → HostState → ℕ

abbrev pub empty : Hands
empty i s = 0

abbrev pub holds : ℕ → HostState → Hands → Hands
holds id s e i t = (if i == id && same s t then 1 else 0) + e i t

abbrev pub at_most : Table → Hands
at_most t i s = if same (t i) s then 1 else 0

-- The commands so far were in order; no two resources have one identifier, and each is at the host
-- in the state that the driver takes it to be in; the host knows no identifier from the counter on.
pub record Follows (e : Hands) (d : Driver) : Type 0 where
  pub table : Table
  pub in_order : served d.effects ≡ some table
  pub agrees : (i : ℕ) (s : HostState) → total (seen i s) d + e i s ≤ at_most table i s
  pub unknown : (i : ℕ) → d.idrs.virgl_resource.id ≤ i → table i ≡ absent

pub Follows-less :
    (e e' : Hands) (d : Driver)
    → ((i : ℕ) (s : HostState) → e' i s ≤ e i s)
    → Follows e d
    → Follows e' d
Follows-less e e' d less f = record {
  table = f.table;
  in_order = f.in_order;
  agrees = λ i s. omega (arith, f.agrees i s, less i s);
  unknown = f.unknown;
}

-- A step that puts nothing on a queue and passes resources between the lists and the handler.
pub Follows-moves :
    (k : Measure → ℕ) (e e' : Hands) (d d' : Driver)
    → Grows k d d'
    → served d'.effects ≡ served d.effects
    → ((i : ℕ) (s : HostState) → k (seen i s) + e' i s ≤ e i s)
    → Follows e d
    → Follows e' d'
Follows-moves k e e' d d' g quiet moved f = record {
  table = f.table;
  in_order = rw quiet f.in_order;
  agrees = λ i s. omega (arith, f.agrees i s, g.light (seen i s), moved i s);
  unknown = λ i h. f.unknown i (rw (sym g.idrs) h);
}

pub Follows-Calm :
    (e : Hands) (d d' : Driver)
    → Calm d d'
    → served d'.effects ≡ served d.effects
    → Follows e d
    → Follows e d'
Follows-Calm e d d' c quiet f = Follows-moves (λ v. 0) e e d d' c quiet (λ i s. omega arith) f

pub Follows-Drops :
    (r : Resource) (e : Hands) (d d' : Driver)
    → Drops (λ v. v.of_resource r) d d'
    → served d'.effects ≡ served d.effects
    → Follows e d
    → Follows (holds r.id (view r) e) d'
Follows-Drops r e d d' g quiet f = record {
  table = f.table;
  in_order = rw quiet f.in_order;
  agrees = λ i s. ground (arith, f.agrees i s, g.light (seen i s));
  unknown = λ i h. f.unknown i (rw (sym g.idrs) h);
}

pub same-eq : (s t : HostState) → same s t ≡ true → s ≡ t
same-eq absent t e = ground arith
same-eq bare t e = ground arith
same-eq backed t e = ground arith
same-eq unmapped t e = ground arith
same-eq mapped t e = ground arith

pub same_self : (s : HostState) → same s s ≡ true
same_self absent = refl
same_self bare = refl
same_self backed = refl
same_self unmapped = refl
same_self mapped = refl

-- A resource in the handler's hands is in its state at the host.
pub Follows-state :
    (id : ℕ) (s : HostState) (e : Hands) (d : Driver) (f : Follows (holds id s e) d)
    → f.table id ≡ s
Follows-state id s e d f = same-eq (f.table id) s (ground (arith, f.agrees id s, same_self s))
