-- ===== src/Os.antt =====
-- What the driver calls and the repository does not contain: the Windows kernel, the WDF framework,
-- the virtio library and the device. One value answers the calls of one request or interrupt.
use mvisor_win_vgpu_driver.Common.{ℕ, Bool, Option, List}
use mvisor_win_vgpu_driver.Memory.Bitmap.{Rtl}
use mvisor_win_vgpu_driver.Driver.{DrvCapset, Resource, VgpuBuffer}

-- `struct VirtIOBufferDescriptor`
pub record Descriptor : Type 0 where
  pub phys_addr : ℕ
  pub length : ℕ

-- One buffer that `virtqueue_get_buf` returns: its place among those outstanding, and the `gpa` and
-- `size` that the device wrote to its response, if it has one.
pub record Completion : Type 0 where
  pub index : ℕ
  pub gpa : ℕ
  pub size : ℕ

-- The buffers that the device returns on the command and on the control queue in one interrupt.
pub record Interrupt : Type 0 where
  pub on_command_queue : List Completion
  pub on_control_queue : List Completion

pub record Os : Type 0 where
  pub rtl : Rtl
  -- What `ExAllocateFromLookasideListEx` returns: memory with what it last held. The driver asserts
  -- that a command buffer is found; a resource may be missing.
  pub stale_buffer : VgpuBuffer
  pub stale_resource : Option Resource
  -- The address of a block from `ExAllocatePool2`, which is zeroed.
  pub pool_address : ℕ
  -- Whether `ExAllocatePool2` finds room for a `VIRGL_CONTEXT`, and for a number of bytes.
  pub pool_for_context : Bool
  pub pool_for : ℕ → Bool
  -- `MmGetPhysicalAddress`
  pub physical_address : ℕ → ℕ
  -- What `virtqueue_add_buf` returns on a queue with the given buffers outstanding; 0 is success.
  pub add_buf : ℕ → List VgpuBuffer → List Descriptor → ℕ → ℕ → ℕ
  -- `MmMapIoSpaceEx` and `IoAllocateMdl`, which may return NULL, and `MmMapLockedPagesSpecifyCache`,
  -- which may also raise an exception.
  pub map_io_space : ℕ → ℕ → ℕ
  pub allocate_mdl : ℕ → ℕ → ℕ
  pub map_locked_pages : ℕ → Option ℕ
  -- `PsGetCurrentProcessId`
  pub process_id : ℕ
  -- `WdfRequestProbeAndLockUserBufferForRead` of an address and a size, and the bytes at the pointer
  -- that `WdfMemoryGetBuffer` then returns, unless that is NULL.
  pub probe_and_lock : ℕ → ℕ → ℕ
  pub memory_buffer : ℕ → ℕ → Option (List ℕ)
  -- The status and the object of `ObReferenceObjectByHandle`, and `KeWaitForSingleObject` on it.
  pub reference_object : ℕ → ℕ × ℕ
  pub wait_for_object : ℕ → ℕ
  -- `KeWaitForSingleObject` with no time limit: the interrupts that are served during each such wait
  -- of a request, and the status for the event of a resource of a context, if the call returns.
  pub interrupts : List Interrupt
  pub event_status : ℕ → ℕ → Option ℕ
  -- What the device answers: its `staging` field, the capset at an index, and the data of a capset
  -- by identifier and version.
  pub staging : ℕ
  pub capset_info : ℕ → DrvCapset
  pub capset_data : ℕ → ℕ → List ℕ
