-- ===== src/Wire.antt =====
-- kernelmode/vgpu/command.h: the commands that the driver puts on the virtqueues.
use mvisor_win_vgpu_driver.Common.{ℕ, List}

-- `enum virtio_gpu_ctrl_type`, the commands of it. The driver reads back from a buffer the type that
-- it wrote there, so a type is one of these.
pub data CtrlType : Type 0 where
  undefined : CtrlType
  get_display_info resource_create_2d resource_unref set_scanout resource_flush : CtrlType
  transfer_to_host_2d resource_attach_backing resource_detach_backing : CtrlType
  get_capset_info get_capset get_edid resource_assign_uuid : CtrlType
  resource_create_blob set_scanout_blob : CtrlType
  ctx_create ctx_destroy ctx_attach_resource ctx_detach_resource : CtrlType
  resource_create_3d transfer_to_host_3d transfer_from_host_3d submit_3d : CtrlType
  resource_map_blob resource_unmap_blob : CtrlType
  update_cursor move_cursor : CtrlType

-- `struct virtio_gpu_ctrl_hdr`; `ring_idx` and `padding` are never written and stay zero.
pub record CtrlHdr : Type 0 where
  pub ctrl_type : CtrlType
  pub flags : ℕ
  pub fence_id : ℕ
  pub ctx_id : ℕ

-- `struct virtio_gpu_resource_create_3d` after its header.
pub record ResourceCreate3d : Type 0 where
  pub resource_id : ℕ
  pub target : ℕ
  pub format : ℕ
  pub bind : ℕ
  pub width : ℕ
  pub height : ℕ
  pub depth : ℕ
  pub array_size : ℕ
  pub last_level : ℕ
  pub nr_samples : ℕ
  pub flags : ℕ

-- `struct virtio_gpu_resource_create_2d`
pub record ResourceCreate2d : Type 0 where
  pub resource_id : ℕ
  pub format : ℕ
  pub width : ℕ
  pub height : ℕ

-- `struct virtio_gpu_resource_attach_backing`
pub record AttachBacking : Type 0 where
  pub resource_id : ℕ
  pub nr_entries : ℕ
  pub gpa : ℕ
  pub size : ℕ

-- `struct virtio_gpu_box`, also `struct drm_virtgpu_3d_box`.
pub record Box : Type 0 where
  pub x : ℕ
  pub y : ℕ
  pub z : ℕ
  pub w : ℕ
  pub h : ℕ
  pub d : ℕ

-- `struct virtio_gpu_rect`
pub record Rect : Type 0 where
  pub x : ℕ
  pub y : ℕ
  pub width : ℕ
  pub height : ℕ

-- `struct virtio_gpu_transfer_host_3d`; its fields are those of `VIRTGPU_TRANSFER_HOST_3D_PARAM`.
pub record TransferHost3d : Type 0 where
  pub box : Box
  pub offset : ℕ
  pub resource_id : ℕ
  pub level : ℕ
  pub stride : ℕ
  pub layer_stride : ℕ

-- `struct virtio_gpu_transfer_to_host_2d`; its fields are those of `VIRTGPU_TRANSFER_HOST_2D_PARAM`.
pub record TransferToHost2d : Type 0 where
  pub r : Rect
  pub offset : ℕ
  pub resource_id : ℕ

-- `struct virtio_gpu_resource_create_blob`
pub record ResourceCreateBlob : Type 0 where
  pub resource_id : ℕ
  pub blob_mem : ℕ
  pub blob_flags : ℕ
  pub nr_entries : ℕ
  pub blob_id : ℕ
  pub size : ℕ
  pub format : ℕ
  pub bind : ℕ
  pub target : ℕ
  pub width : ℕ
  pub height : ℕ
  pub depth : ℕ
  pub array_size : ℕ
  pub last_level : ℕ
  pub nr_samples : ℕ
  pub flags : ℕ

-- What follows the header of a command.
pub data Body : Type 0 where
  capset_info_request : ℕ → Body
  capset_request : ℕ → ℕ → Body
  -- `nlen`, `context_init`, `debug_name`
  context_request : ℕ → ℕ → List ℕ → Body
  header_only : Body
  create_3d : ResourceCreate3d → Body
  create_2d : ResourceCreate2d → Body
  create_blob : ResourceCreateBlob → Body
  attach : AttachBacking → Body
  -- The commands that only name a resource.
  resource : ℕ → Body
  transfer_3d : TransferHost3d → Body
  transfer_2d : TransferToHost2d → Body
  -- The size of the command stream.
  submit : ℕ → Body

pub record Command : Type 0 where
  pub hdr : CtrlHdr
  pub body : Body

-- `sizeof` of the packed structs.
abbrev pub sizeof_ctrl_hdr : ℕ
sizeof_ctrl_hdr = 24

abbrev pub sizeof : Body → ℕ
sizeof (capset_info_request _) = 32
sizeof (capset_request _ _) = 32
sizeof (context_request _ _ _) = 96
sizeof header_only = 24
sizeof (create_3d _) = 72
sizeof (create_2d _) = 40
sizeof (create_blob _) = 96
sizeof (attach _) = 44
sizeof (resource _) = 32
sizeof (transfer_3d _) = 72
sizeof (transfer_2d _) = 56
sizeof (submit _) = 32

-- `sizeof(struct virtio_gpu_resp_capset_info)` and `sizeof(struct virtio_gpu_resp_map_info)`
abbrev pub sizeof_resp_capset_info : ℕ
sizeof_resp_capset_info = 40

abbrev pub sizeof_resp_map_info : ℕ
sizeof_resp_map_info = 48

-- `VIRTIO_GPU_FLAG_FENCE`
abbrev pub flag_fence : ℕ
flag_fence = 1

-- `VIRTGPU_RESOURCE_CREATE_PARAM`
pub record ResourceCreateParam : Type 0 where
  pub target : ℕ
  pub format : ℕ
  pub bind : ℕ
  pub width : ℕ
  pub height : ℕ
  pub depth : ℕ
  pub array_size : ℕ
  pub last_level : ℕ
  pub nr_samples : ℕ
  pub flags : ℕ

-- `VIRTGPU_BLOB_RESOURCE_CREATE_PARAM`
pub record BlobResourceCreateParam : Type 0 where
  pub blob_mem : ℕ
  pub blob_flags : ℕ
  pub nr_entries : ℕ
  pub blob_id : ℕ
  pub size : ℕ
  pub format : ℕ
  pub bind : ℕ
  pub target : ℕ
  pub width : ℕ
  pub height : ℕ
  pub depth : ℕ
  pub array_size : ℕ
  pub last_level : ℕ
  pub nr_samples : ℕ
  pub flags : ℕ
