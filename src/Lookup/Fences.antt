-- ===== src/Lookup/Fences.antt =====
-- `UpdateResourceState` of kernelmode/vgpu/control.h: which resources it touches, and how fences
-- decide when a resource is idle again.
use mathlib.Core.Option
use mvisor_win_vgpu_driver.Common.{
  ◌≤◌, ◌<◌, true, false, leb, ◌&&◌, Bool-cases, inl, inr, ℕ, ◌≡◌, refl, Bool, Option, none, some,
  List, [], ◌∷◌, arith, ◌==◌, if◌then◌else◌, contains, find_first, modify_first,
}
use mvisor_win_vgpu_driver.Driver.{Context, Resource}
use mvisor_win_vgpu_driver.Lookup.{
  has_resource_id, get_resource_from_list, write_resource, signal, update_resources,
}

-- The write through a pointer to the resource `j`, seen by a lookup of `i`.
get_resource-write :
    (i j : ℕ) (f : Resource → Resource) (rs : List Resource)
    → ((r : Resource) → (f r).id ≡ r.id)
    → find_first (has_resource_id i) (modify_first (has_resource_id j) f rs) ≡ (
        if j == i
        then Option.map f (find_first (has_resource_id i) rs)
        else find_first (has_resource_id i) rs)
get_resource-write i j f [] keep = ground arith
get_resource-write i j f (r ∷ rs) keep = ground (arith, keep r, get_resource-write i j f rs keep)

signal-id : (busy : Bool) (fence : ℕ) (r : Resource) → (signal busy fence r).id ≡ r.id
unfolding signal
signal-id busy fence r = ground arith

signal_twice :
    (busy : Bool) (fence : ℕ) (r : Resource)
    → signal busy fence (signal busy fence r) ≡ signal busy fence r
unfolding signal
signal_twice busy fence r = ground arith

map_signal_twice :
    (busy : Bool) (fence : ℕ) (o : Option Resource)
    → Option.map (signal busy fence) (Option.map (signal busy fence) o)
      ≡ Option.map (signal busy fence) o
map_signal_twice busy fence none = refl
map_signal_twice busy fence (some r) = rw (signal_twice busy fence r)

-- The loop over the handles, duplicates and unknown handles included, applies its body once to each
-- resource that is named, and leaves every other resource as it was.
pub get_resource-update :
    (ids : List ℕ) (busy : Bool) (fence i : ℕ) (c : Context)
    → get_resource_from_list i (update_resources ids busy fence c) ≡ (
        if contains i ids
        then Option.map (signal busy fence) (get_resource_from_list i c)
        else get_resource_from_list i c)
unfolding update_resources get_resource_from_list
get_resource-update [] busy fence i c = refl
get_resource-update (j ∷ ids) busy fence i c = ground (
  arith,
  get_resource-update ids busy fence i (write_resource j (signal busy fence) c),
  get_resource-write i j (signal busy fence) c.resources (signal-id busy fence),
  map_signal_twice busy fence (find_first (has_resource_id i) c.resources),
)

-- A resource that was made busy under a fence at least as late as the one it had, when a later batch
-- completes under a fence of its own: it is idle again, with that fence, if the batch names it and
-- is not earlier than the fence, and it stays busy in every other case.
pub get_resource_complete :
    (submitted completed : List ℕ) (fence done i : ℕ) (c : Context) (r : Resource)
    → get_resource_from_list i c ≡ some r
    → contains i submitted ≡ true
    → r.fence_id ≤ fence
    → 0 < fence
    → 0 < done
    → get_resource_from_list i
        (update_resources completed false done (update_resources submitted true fence c))
      ≡ some (
          if contains i completed && leb fence done
          then record r { fence_id = done; idle = true }
          else record r { fence_id = fence; idle = false })
unfolding signal
get_resource_complete submitted completed fence done i c r found named late pos pos' =
    rw
      (
        get_resource-update completed false done i (update_resources submitted true fence c),
        get_resource-update submitted true fence i c,
        found,
        named,
      )
      (elim (Bool-cases (contains i completed)) [
        | inl e ↦ rw e (ground arith)
        | inr e ↦ rw e (ground arith)
      ])
