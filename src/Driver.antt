-- ===== src/Driver.antt =====
-- kernelmode/vgpu/global.h: the state of the driver.
use mvisor_win_vgpu_driver.Common.{ℕ, Bool, Option, List}
use mvisor_win_vgpu_driver.Idr.{Idrs}
use mvisor_win_vgpu_driver.Memory.{MemoryDescriptor, VgpuMemory}
use mvisor_win_vgpu_driver.Wire.{Command}

-- NTSTATUS values.
abbrev pub status_success : ℕ
status_success = 0

abbrev pub status_pending : ℕ
status_pending = 0x103

abbrev pub status_unsuccessful : ℕ
status_unsuccessful = 0xc000_0001

abbrev pub status_insufficient_resources : ℕ
status_insufficient_resources = 0xc000_009a

abbrev pub status_not_supported : ℕ
status_not_supported = 0xc000_00bb

-- A NULL pointer.
abbrev pub null : ℕ
null = 0

-- `VIRTIO_GPU_DRV_CAPSET`
pub record DrvCapset : Type 0 where
  pub id : ℕ
  pub max_version : ℕ
  pub max_size : ℕ

-- `CAPSETS`
pub record Capsets : Type 0 where
  pub initialized : Bool
  pub num_caps : ℕ
  pub entries : List DrvCapset
  pub capset_id_mask : ℕ

-- `SHARE_DESCRIPTOR`
pub record ShareDescriptor : Type 0 where
  pub mdl : ℕ
  pub size : ℕ
  pub user_address : ℕ
  pub kernel_address : ℕ

-- `VGPU_MEMORY_BUFFER`
pub record VgpuMemoryBuffer : Type 0 where
  pub size : ℕ
  pub share : ShareDescriptor
  pub memory : MemoryDescriptor

-- `VIRGL_RESOURCE`; `idle` is whether its `StateEvent` is signalled.
pub record Resource : Type 0 where
  pub id : ℕ
  pub idle : Bool
  pub for_buffer : Bool
  pub for_blob : Bool
  pub fence_id : ℕ
  pub buffer : VgpuMemoryBuffer

-- `VIRGL_CONTEXT`; the list is `ResourceList` from its head.
pub record Context : Type 0 where
  pub id : ℕ
  pub resources : List Resource

-- `VGPU_BUFFER`; `command` is what stands at `pBuf`.
pub record VgpuBuffer : Type 0 where
  pub command : Command
  pub buf : ℕ
  pub resp_buf : ℕ
  pub event : Bool
  pub request : ℕ
  pub data_buf : ℕ
  pub data_buf_size : ℕ
  pub resource_ids : Option (List ℕ)
  pub resource_ids_count : ℕ
  pub fence_object : ℕ

-- What the driver does to objects outside its own state, in order, the latest first.
pub data Effect : Type 0 where
  -- A command that `virtqueue_add_buf` has put on a queue, and the `virtqueue_kick` after it.
  push : ℕ → Command → Effect
  -- `virtqueue_kick` alone, `MmUnmapIoSpace`, `MmUnmapLockedPages`, `KeSetEvent` on a fence object.
  kick : ℕ → Effect
  unmap_io_space : ℕ → ℕ → Effect
  unmap_locked_pages : ℕ → ℕ → Effect
  set_fence_event : ℕ → Effect
  -- `virtqueue_enable_cb` and `virtqueue_disable_cb`
  enable_cb : ℕ → Effect
  disable_cb : ℕ → Effect

-- `DEVICE_CONTEXT` and the global variables. A queue holds the buffers that the device has not
-- returned, in the order in which they were added.
pub record Driver : Type 0 where
  pub idrs : Idrs
  pub memory : VgpuMemory
  pub capsets : Capsets
  pub contexts : List Context
  pub command_queue : List VgpuBuffer
  pub control_queue : List VgpuBuffer
  pub num_virt_queues : ℕ
  pub capabilities : ℕ
  pub effects : List Effect
