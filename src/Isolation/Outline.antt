-- ===== src/Isolation/Outline.antt =====
-- What an interrupt leaves as it is of every context of kernelmode/vgpu: which resources there are,
-- what they are, and where they are mapped for their process.
use mvisor_win_vgpu_driver.Common.{
  ℕ, ◌≡◌, refl, ◌∙◌, Bool, false, Option, some, none, List, [], ◌∷◌, map, arith, find_first,
  modify_first,
}
use mvisor_win_vgpu_driver.Driver.{Driver, Context, Resource, ShareDescriptor, VgpuBuffer}
use mvisor_win_vgpu_driver.Os.{Os, Interrupt}
use mvisor_win_vgpu_driver.Lookup.{
  has_resource_id, has_context_id, get_virgl_context_from_list, modify_context, write_resource,
  signal, update_resources, update_resource_state,
}
use mvisor_win_vgpu_driver.Command.Push.{Queue, command_queue, control_queue, set_outstanding}
use mvisor_win_vgpu_driver.Ioctl.OfContexts.{update_resources-id}
use mvisor_win_vgpu_driver.Interrupt.{set_mapping, interrupt_dpc}
use mvisor_win_vgpu_driver.Interrupt.Served.{Served, interrupt_dpc-served}

-- What stays of a resource: its identifier, whether it has a buffer and is a blob, and its share.
pub record Outline : Type 0 where
  pub id : ℕ
  pub for_buffer : Bool
  pub for_blob : Bool
  pub share : ShareDescriptor

abbrev pub outline_of : Resource → Outline
outline_of r = record {
  id = r.id;
  for_buffer = r.for_buffer;
  for_blob = r.for_blob;
  share = r.buffer.share;
}

abbrev pub outlines : Context → List Outline
outlines c = map outline_of c.resources

-- What a process has: no context, or the outlines of its resources.
abbrev pub sketch : Option Context → Option (List Outline)
sketch none = none
sketch (some c) = some (outlines c)

abbrev pub sketch_of : ℕ → Driver → Option (List Outline)
sketch_of q d = sketch (get_virgl_context_from_list q d)

abbrev pub Sketched : ℕ → Driver → Driver → Type 0
Sketched q d d' = sketch_of q d' ≡ sketch_of q d

write-outlines :
    (p : Resource → Bool) (u : Resource → Resource) (rs : List Resource)
    → ((r : Resource) → outline_of (u r) ≡ outline_of r)
    → map outline_of (modify_first p u rs) ≡ map outline_of rs
write-outlines p u [] keep = refl
write-outlines p u (r ∷ rs) keep = ground (arith, keep r, write-outlines p u rs keep)

find-sketch :
    (q ctx : ℕ) (f : Context → Context) (cs : List Context)
    → ((c : Context) → (f c).id ≡ c.id)
    → ((c : Context) → outlines (f c) ≡ outlines c)
    → sketch (find_first (has_context_id q) (modify_first (has_context_id ctx) f cs))
      ≡ sketch (find_first (has_context_id q) cs)
find-sketch q ctx f [] same keep = refl
find-sketch q ctx f (c ∷ cs) same keep =
    ground (arith, same c, keep c, find-sketch q ctx f cs same keep)

Sketched-modify_context :
    (q ctx : ℕ) (f : Context → Context) (d : Driver)
    → ((c : Context) → (f c).id ≡ c.id)
    → ((c : Context) → outlines (f c) ≡ outlines c)
    → Sketched q d (modify_context ctx f d)
unfolding get_virgl_context_from_list
Sketched-modify_context q ctx f d same keep = find-sketch q ctx f d.contexts same keep

signal-outline :
    (busy : Bool) (fence : ℕ) (r : Resource) → outline_of (signal busy fence r) ≡ outline_of r
unfolding signal
signal-outline busy fence r = ground arith

update_resources-outlines :
    (ids : List ℕ) (busy : Bool) (fence : ℕ) (c : Context)
    → outlines (update_resources ids busy fence c) ≡ outlines c
unfolding update_resources
update_resources-outlines [] busy fence c = refl
update_resources-outlines (id ∷ ids) busy fence c =
    update_resources-outlines ids busy fence (write_resource id (signal busy fence) c)
    ∙ write-outlines (has_resource_id id) (signal busy fence) c.resources
        (signal-outline busy fence)

Sketched-update_resource_state :
    (q ctx : ℕ) (ids : List ℕ) (n : ℕ) (busy : Bool) (fence : ℕ) (d : Driver)
    → Sketched q d (update_resource_state ctx ids n busy fence d)
unfolding update_resource_state
Sketched-update_resource_state q ctx ids n busy fence d =
    Sketched-modify_context q ctx _ d (update_resources-id _ busy fence)
      (update_resources-outlines _ busy fence)

set_mapping-Sketched :
    (q ctx id address size : ℕ) (d : Driver)
    → Sketched q d (modify_context ctx (write_resource id (set_mapping address size)) d)
set_mapping-Sketched q ctx id address size d =
    Sketched-modify_context q ctx _ d (λ c. refl)
      (λ c. write-outlines (has_resource_id id) (set_mapping address size) c.resources (λ r. refl))

set_outstanding-Sketched :
    (q : ℕ) (w : Queue) (bs : List VgpuBuffer) (d : Driver) → Sketched q d (set_outstanding w bs d)
unfolding get_virgl_context_from_list
set_outstanding-Sketched q command_queue bs d = refl
set_outstanding-Sketched q control_queue bs d = refl

pub elsewhere : (q : ℕ) (d d' : Driver) → d'.contexts ≡ d.contexts → Sketched q d d'
unfolding get_virgl_context_from_list
elsewhere q d d' same = rw same refl

module _ (os : Os) (q : ℕ) where
  Sketched-Served : Served os (Sketched q)
  Sketched-Served = record {
    none_done = λ d. refl;
    both = λ a b c h k. k ∙ h;
    mapped = set_mapping-Sketched q;
    marked = λ ctx ids n fence d. Sketched-update_resource_state q ctx ids n false fence d;
    signalled = λ object d. elsewhere q d _ refl;
    freed = λ va size d. elsewhere q d _ refl;
    taken = λ w i b d at. set_outstanding-Sketched q w _ d;
  }

  pub interrupt_dpc-Sketched :
      (message : Option ℕ) (i : Interrupt) (d : Driver)
      → Sketched q d (interrupt_dpc os message i d)
  interrupt_dpc-Sketched message i d =
      interrupt_dpc-served os (Sketched q) Sketched-Served message i d
