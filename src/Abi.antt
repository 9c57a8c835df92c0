-- ===== src/Abi.antt =====
-- kernelmode/vgpu/ioctl.h: the structures that user mode passes in, read from their bytes. The
-- compiler lays them out with natural alignment.
use mvisor_win_vgpu_driver.Common.{ℕ, zero, suc, ◌+◌, List, [], ◌∷◌}
use mvisor_win_vgpu_driver.Request.{u32_at, u64_at}
use mvisor_win_vgpu_driver.Wire.{Box, ResourceCreateParam, BlobResourceCreateParam}

-- `struct drm_virtgpu_get_caps`
pub record GetCaps : Type 0 where
  pub cap_set_id : ℕ
  pub cap_set_ver : ℕ

abbrev pub sizeof_get_caps : ℕ
sizeof_get_caps = 8

unfoldable pub get_caps_of : List ℕ → GetCaps
unfolding u32_at
get_caps_of b = record { cap_set_id = u32_at b 0; cap_set_ver = u32_at b 4 }

-- `struct drm_virtgpu_resource_create`: what the driver copies to `VIRTGPU_RESOURCE_CREATE_PARAM`,
-- and the size.
pub record ResourceCreate : Type 0 where
  pub param : ResourceCreateParam
  pub size : ℕ

abbrev pub sizeof_resource_create : ℕ
sizeof_resource_create = 56

unfoldable pub resource_create_of : List ℕ → ResourceCreate
unfolding u32_at
resource_create_of b = record {
  param = record {
    target = u32_at b 0;
    format = u32_at b 4;
    bind = u32_at b 8;
    width = u32_at b 12;
    height = u32_at b 16;
    depth = u32_at b 20;
    array_size = u32_at b 24;
    last_level = u32_at b 28;
    nr_samples = u32_at b 32;
    flags = u32_at b 36;
  };
  size = u32_at b 48;
}

-- `struct drm_virtgpu_resource_create_resp`
abbrev pub sizeof_resource_create_resp : ℕ
sizeof_resource_create_resp = 8

-- `struct drm_virtgpu_resource_create_blob`; the driver sets `nr_entries` to 0 and rounds the size.
abbrev pub sizeof_resource_create_blob : ℕ
sizeof_resource_create_blob = 72

unfoldable pub resource_create_blob_of : List ℕ → BlobResourceCreateParam
unfolding u32_at u64_at
resource_create_blob_of b = record {
  blob_mem = u32_at b 0;
  blob_flags = u32_at b 4;
  nr_entries = 0;
  size = u64_at b 16;
  blob_id = u64_at b 24;
  format = u32_at b 32;
  bind = u32_at b 36;
  target = u32_at b 40;
  width = u32_at b 44;
  height = u32_at b 48;
  depth = u32_at b 52;
  array_size = u32_at b 56;
  last_level = u32_at b 60;
  nr_samples = u32_at b 64;
  flags = u32_at b 68;
}

-- `struct drm_virtgpu_execbuffer`
pub record Execbuffer : Type 0 where
  pub flags : ℕ
  pub size : ℕ
  pub command : ℕ
  pub bo_handles : ℕ
  pub num_bo_handles : ℕ
  pub in_fence_fd : ℕ
  pub out_fence_fd : ℕ

abbrev pub sizeof_execbuffer : ℕ
sizeof_execbuffer = 48

unfoldable pub execbuffer_of : List ℕ → Execbuffer
unfolding u32_at u64_at
execbuffer_of b = record {
  flags = u32_at b 0;
  size = u32_at b 4;
  command = u64_at b 8;
  bo_handles = u64_at b 16;
  num_bo_handles = u32_at b 24;
  in_fence_fd = u64_at b 32;
  out_fence_fd = u64_at b 40;
}

abbrev pub execbuf_fence_fd_in : ℕ
execbuf_fence_fd_in = 1

abbrev pub execbuf_fence_fd_out : ℕ
execbuf_fence_fd_out = 2

-- `struct drm_gem_close`
abbrev pub sizeof_gem_close : ℕ
sizeof_gem_close = 8

unfoldable pub gem_close_handle : List ℕ → ℕ
unfolding u32_at
gem_close_handle b = u32_at b 0

-- `struct drm_virtgpu_3d_wait`
pub record Wait : Type 0 where
  pub handle : ℕ
  pub flags : ℕ

abbrev pub sizeof_wait : ℕ
sizeof_wait = 8

unfoldable pub wait_of : List ℕ → Wait
unfolding u32_at
wait_of b = record { handle = u32_at b 0; flags = u32_at b 4 }

abbrev pub wait_nowait : ℕ
wait_nowait = 1

-- `struct drm_virtgpu_map`
abbrev pub sizeof_map : ℕ
sizeof_map = 16

unfoldable pub map_handle : List ℕ → ℕ
unfolding u32_at
map_handle b = u32_at b 8

-- `struct drm_virtgpu_3d_transfer`
pub record Transfer : Type 0 where
  pub bo_handle : ℕ
  pub box : Box
  pub level : ℕ
  pub offset : ℕ
  pub stride : ℕ
  pub layer_stride : ℕ

abbrev pub sizeof_transfer : ℕ
sizeof_transfer = 48

unfoldable pub transfer_of : List ℕ → Transfer
unfolding u32_at
transfer_of b = record {
  bo_handle = u32_at b 0;
  box = record {
    x = u32_at b 4;
    y = u32_at b 8;
    z = u32_at b 12;
    w = u32_at b 16;
    h = u32_at b 20;
    d = u32_at b 24;
  };
  level = u32_at b 28;
  offset = u32_at b 32;
  stride = u32_at b 36;
  layer_stride = u32_at b 40;
}

-- `struct drm_virtgpu_context_init`
pub record ContextInit : Type 0 where
  pub num_params : ℕ
  pub ctx_set_params : ℕ

abbrev pub sizeof_context_init : ℕ
sizeof_context_init = 16

unfoldable pub context_init_of : List ℕ → ContextInit
unfolding u32_at u64_at
context_init_of b = record { num_params = u32_at b 0; ctx_set_params = u64_at b 8 }

-- `struct drm_virtgpu_context_set_param`, an array of them.
pub record ContextSetParam : Type 0 where
  pub param : ℕ
  pub value : ℕ

abbrev pub sizeof_context_set_param : ℕ
sizeof_context_set_param = 16

unfoldable pub context_set_params : ℕ → ℕ → List ℕ → List ContextSetParam
unfolding u64_at
context_set_params zero offset b = []
context_set_params (suc n) offset b =
    record { param = u64_at b offset; value = u64_at b (offset + 8) }
    ∷ context_set_params n (offset + sizeof_context_set_param) b

-- `MAX_CAPSET_ID`, `VIRTGPU_CONTEXT_PARAM_CAPSET_ID` and `VIRTGPU_PARAM_SUPPORTED_CAPSET_IDs`
abbrev pub max_capset_id : ℕ
max_capset_id = 63

abbrev pub context_param_capset_id : ℕ
context_param_capset_id = 1

abbrev pub param_supported_capset_ids : ℕ
param_supported_capset_ids = 7
