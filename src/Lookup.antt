-- ===== src/Lookup.antt =====
-- kernelmode/vgpu/control.h: finding contexts and resources, and the busy state of resources. A
-- pointer to a list entry is the first entry with its identifier.
pub mod Fences
use mvisor_win_vgpu_driver.Common.{
  ℕ, ◌≡◌, arith, some, Bool, not, Option, List, [], ◌∷◌, ◌==◌, leb, if◌then◌else◌, find_first,
  modify_first, take,
}
use mvisor_win_vgpu_driver.Driver.{Driver, Context, Resource}

abbrev pub has_resource_id : ℕ → Resource → Bool
has_resource_id id r = r.id == id

abbrev pub has_context_id : ℕ → Context → Bool
has_context_id id c = c.id == id

unfoldable pub get_resource_from_list : ℕ → Context → Option Resource
get_resource_from_list id c = find_first (has_resource_id id) c.resources

unfoldable pub get_virgl_context_from_list : ℕ → Driver → Option Context
get_virgl_context_from_list id d = find_first (has_context_id id) d.contexts

-- A write through a pointer to a context, and through a pointer to a resource of it.
abbrev pub modify_context : ℕ → (Context → Context) → Driver → Driver
modify_context id f d = record d { contexts = modify_first (has_context_id id) f d.contexts }

abbrev pub write_resource : ℕ → (Resource → Resource) → Context → Context
write_resource id f c = record c { resources = modify_first (has_resource_id id) f c.resources }

-- The body of the loop of `UpdateResourceState`, for a resource that was found.
unfoldable pub signal : Bool → ℕ → Resource → Resource
signal busy fence_id r =
    if fence_id == 0
    then record r { idle = not busy }
    else if leb r.fence_id fence_id
    then record r { fence_id = fence_id; idle = not busy }
    else r

unfoldable pub update_resources : List ℕ → Bool → ℕ → Context → Context
update_resources [] busy fence_id c = c
update_resources (id ∷ ids) busy fence_id c =
    update_resources ids busy fence_id (write_resource id (signal busy fence_id) c)

unfoldable pub update_resource_state : ℕ → List ℕ → ℕ → Bool → ℕ → Driver → Driver
update_resource_state id ids count busy fence_id =
    modify_context id (update_resources (take count ids) busy fence_id)

found-id :
    (id : ℕ) (cs : List Context) (c : Context)
    → find_first (has_context_id id) cs ≡ some c
    → c.id ≡ id
found-id id [] c e = ground arith
found-id id (x ∷ cs) c e = ground (arith, found-id id cs c)

-- A context that was found has the identifier that was looked for.
pub found_context-id :
    (id : ℕ) (d : Driver) (c : Context) → get_virgl_context_from_list id d ≡ some c → c.id ≡ id
unfolding get_virgl_context_from_list
found_context-id id d c e = found-id id d.contexts c e
