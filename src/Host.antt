-- ===== src/Host.antt =====
-- The host's side of the commands of kernelmode/vgpu/command.c, as an abstract device: a table of the
-- resources that were created, and which commands are in order.

pub mod Invariant
pub mod Sending
pub mod Quiet
pub mod Taking
pub mod Creation
pub mod Steps
pub mod Handlers
pub mod Reach
pub mod Leak
use mvisor_win_vgpu_driver.Common.{
  ℕ, ◌≡◌, Bool, ◌||◌, Option, none, some, List, [], ◌∷◌, ◌==◌, if◌then◌else◌,
}
use mvisor_win_vgpu_driver.Wire.{CtrlType, Command, Body}
use mvisor_win_vgpu_driver.Driver.{Effect}

-- A resource does not exist, exists with no backing, has guest memory for its backing, or is a blob
-- that is unmapped or mapped.
pub data HostState : Type 0 where
  absent bare backed unmapped mapped : HostState

abbrev pub state_index : HostState → ℕ
state_index absent = 0
state_index bare = 1
state_index backed = 2
state_index unmapped = 3
state_index mapped = 4

abbrev pub same : HostState → HostState → Bool
same s t = state_index s == state_index t

abbrev move : HostState → HostState → HostState → Option HostState
move from to s = if same s from then some to else none

abbrev only_if_present : HostState → Option HostState
only_if_present absent = none
only_if_present bare = some bare
only_if_present backed = some backed
only_if_present unmapped = some unmapped
only_if_present mapped = some mapped

-- What a command makes of the resource that it names; none is a command out of order.
abbrev pub transition : CtrlType → HostState → Option HostState
transition CtrlType.resource_create_2d s = move absent bare s
transition CtrlType.resource_create_3d s = move absent bare s
transition CtrlType.resource_create_blob s = move absent unmapped s
transition CtrlType.resource_attach_backing s = move bare backed s
transition CtrlType.resource_detach_backing s = move backed bare s
transition CtrlType.resource_map_blob s = move unmapped mapped s
transition CtrlType.resource_unmap_blob s = move mapped unmapped s
transition CtrlType.resource_unref s = if same s bare || same s unmapped then some absent else none
transition CtrlType.transfer_to_host_2d s = only_if_present s
transition CtrlType.transfer_to_host_3d s = only_if_present s
transition CtrlType.transfer_from_host_3d s = only_if_present s
transition _ s = some s

-- The resource that a command names; 0 is none.
abbrev pub named_resource : Body → ℕ
named_resource (Body.create_3d c) = c.resource_id
named_resource (Body.create_2d c) = c.resource_id
named_resource (Body.create_blob c) = c.resource_id
named_resource (Body.attach a) = a.resource_id
named_resource (Body.resource id) = id
named_resource (Body.transfer_3d t) = t.resource_id
named_resource (Body.transfer_2d t) = t.resource_id
named_resource _ = 0

abbrev pub Table : Type 0
Table = ℕ → HostState

abbrev pub no_resources : Table
no_resources id = absent

abbrev pub set_state : ℕ → HostState → Table → Table
set_state id s t j = if j == id then s else t j

abbrev pub set_found : ℕ → Option HostState → Table → Option Table
set_found id none t = none
set_found id (some s) t = some (set_state id s t)

abbrev pub serve : Command → Table → Option Table
serve c t =
    set_found (named_resource c.body) (transition c.hdr.ctrl_type (t (named_resource c.body))) t

abbrev pub serve_next : Command → Option Table → Option Table
serve_next c none = none
serve_next c (some t) = serve c t

-- The table after the commands that the driver has put on its queues, in the order in which it did;
-- none if one of them was out of order.
abbrev pub served : List Effect → Option Table
served [] = some no_resources
served (Effect.push q c ∷ es) = serve_next c (served es)
served (Effect.kick n ∷ es) = served es
served (Effect.unmap_io_space a n ∷ es) = served es
served (Effect.unmap_locked_pages a m ∷ es) = served es
served (Effect.set_fence_event o ∷ es) = served es
served (Effect.enable_cb n ∷ es) = served es
served (Effect.disable_cb n ∷ es) = served es
