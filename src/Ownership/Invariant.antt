-- ===== src/Ownership/Invariant.antt =====
-- The invariant of the driver of kernelmode/vgpu: whose memory is whose, and which identifiers are
-- in use.
use mvisor_win_vgpu_driver.Common.{
  ℕ, ◌+◌, ◌≤◌, ◌<◌, ◌≡◌, refl, sym, Bool, true, false, not, ◌&&◌, arith, ◌==◌, if◌then◌else◌,
}
use mvisor_win_vgpu_driver.Driver.{Driver, Resource, VgpuBuffer}
use mvisor_win_vgpu_driver.Lookup.{signal}
use mvisor_win_vgpu_driver.Interrupt.{resource_of}
use mvisor_win_vgpu_driver.Ownership.Memory.{Claim, Backs, Backs-less}
use mvisor_win_vgpu_driver.Ownership.Totals.{
  Measure, total, is_submit, is_map_blob, is_quiet, Grows, Calm,
}

abbrev pub resource_claim : Resource → Claim
resource_claim r = record { address = r.buffer.memory.virtual_address; size = r.buffer.size }

abbrev pub buffer_claim : VgpuBuffer → Claim
buffer_claim b = record { address = b.data_buf; size = b.data_buf_size }

-- A resource with a buffer that is no blob, and a submitted command, use guest memory.
abbrev pub resource_weight : (Claim → ℕ) → Resource → ℕ
resource_weight f r = if r.for_buffer && not r.for_blob then f (resource_claim r) else 0

abbrev pub buffer_weight : (Claim → ℕ) → VgpuBuffer → ℕ
buffer_weight f b = if is_submit b.command.hdr.ctrl_type then f (buffer_claim b) else 0

abbrev pub names : ℕ → Resource → ℕ
names j r = if r.id == j then 1 else 0

abbrev pub names_plain : ℕ → Resource → ℕ
names_plain j r = if r.id == j && not r.for_blob then 1 else 0

abbrev pub maps : ℕ → VgpuBuffer → ℕ
maps j b = if is_map_blob b.command.hdr.ctrl_type && resource_of b.command.body == j then 1 else 0

pub resource_weight-signal :
    (f : Claim → ℕ) (busy : Bool) (fence : ℕ) (r : Resource)
    → resource_weight f (signal busy fence r) ≡ resource_weight f r
unfolding signal
resource_weight-signal f busy fence r = ground arith

pub names-signal :
    (j : ℕ) (busy : Bool) (fence : ℕ) (r : Resource) → names j (signal busy fence r) ≡ names j r
unfolding signal
names-signal j busy fence r = ground arith

pub names_plain-signal :
    (j : ℕ) (busy : Bool) (fence : ℕ) (r : Resource)
    → names_plain j (signal busy fence r) ≡ names_plain j r
unfolding signal
names_plain-signal j busy fence r = ground arith

pub buffer_weight_quiet :
    (f : Claim → ℕ) (b : VgpuBuffer)
    → is_quiet b.command.hdr.ctrl_type ≡ true
    → buffer_weight f b ≡ 0
buffer_weight_quiet f b e = ground arith

pub maps_quiet : (j : ℕ) (b : VgpuBuffer) → is_quiet b.command.hdr.ctrl_type ≡ true → maps j b ≡ 0
maps_quiet j b e = ground arith

abbrev pub claims : (Claim → ℕ) → Measure
claims f = record {
  of_resource = resource_weight f;
  of_buffer = buffer_weight f;
  signalled = resource_weight-signal f;
  shared = λ s r. refl;
  quiet = buffer_weight_quiet f;
}

-- Everything that bears an identifier.
abbrev pub named : ℕ → Measure
named j = record {
  of_resource = names j;
  of_buffer = maps j;
  signalled = names-signal j;
  shared = λ s r. refl;
  quiet = maps_quiet j;
}

-- The outstanding requests to map a blob, and the resources that are no blobs.
abbrev pub mapping : ℕ → Measure
mapping j = record {
  of_resource = λ r. 0;
  of_buffer = maps j;
  signalled = λ busy fence r. refl;
  shared = λ s r. refl;
  quiet = maps_quiet j;
}

abbrev pub plain_named : ℕ → Measure
plain_named j = record {
  of_resource = names_plain j;
  of_buffer = λ b. 0;
  signalled = names_plain-signal j;
  shared = λ s r. refl;
  quiet = λ b e. refl;
}

-- Claims of memory in the hands of a handler.
abbrev pub Extra : Type 0
Extra = (Claim → ℕ) → ℕ

abbrev pub nothing : Extra
nothing f = 0

abbrev pub claimed : Extra → Driver → Extra
claimed e d f = total (claims f) d + e f

-- The memory backs the resources, the outstanding commands and what a handler holds; identifiers
-- from the counter on are not in use; and what is to be mapped as a blob is a blob.
pub record Owned (e : Extra) (d : Driver) : Type 0 where
  pub backs : Backs (claimed e d) d.memory
  pub fresh : (j : ℕ) → d.idrs.virgl_resource.id ≤ j → total (named j) d ≡ 0
  pub blobs : (j : ℕ) → 0 < total (mapping j) d → total (plain_named j) d ≡ 0

pub Owned-less :
    (e e' : Extra) (d : Driver) → ((f : Claim → ℕ) → e' f ≤ e f) → Owned e d → Owned e' d
Owned-less e e' d less o = record {
  backs = Backs-less _ _ d.memory (λ f. omega (arith, less f)) o.backs;
  fresh = o.fresh;
  blobs = o.blobs;
}

-- A step that moves weight out of what a handler holds, or out of the driver.
pub Owned-moves :
    (k : Measure → ℕ) (e e' : Extra) (d d' : Driver)
    → Grows k d d'
    → ((f : Claim → ℕ) → k (claims f) + e' f ≤ e f)
    → ((j : ℕ) → d.idrs.virgl_resource.id ≤ j → k (named j) ≡ 0)
    → ((j : ℕ)
        → 0 < k (mapping j) + total (mapping j) d
        → k (plain_named j) + total (plain_named j) d ≡ 0)
    → Owned e d
    → Owned e' d'
Owned-moves k e e' d d' g moved old same o = record {
  backs = rw (g.memory) (
      Backs-less (claimed e d) (claimed e' d') d.memory
        (λ f. omega (arith, g.light (claims f), moved f)) o.backs);
  fresh = λ j h.
      omega (arith, g.light (named j), o.fresh j (rw (sym g.idrs) h), old j (rw (sym g.idrs) h));
  blobs = λ j h. omega (
    arith,
    g.light (mapping j),
    g.light (plain_named j),
    same j (omega (arith, h, g.light (mapping j))),
  );
}

pub Owned-Calm : (e : Extra) (d d' : Driver) → Calm d d' → Owned e d → Owned e d'
Owned-Calm e d d' c o =
    Owned-moves (λ v. 0) e e d d' c (λ f. omega arith) (λ j h. refl)
      (λ j h. omega (arith, o.blobs j (omega (arith, h)))) o

pub Owned-if :
    (e : Extra) (b : Bool) (x y : Driver)
    → (b ≡ true → Owned e x)
    → (b ≡ false → Owned e y)
    → Owned e (if b then x else y)
Owned-if e true x y set clear = set refl
Owned-if e false x y set clear = clear refl
