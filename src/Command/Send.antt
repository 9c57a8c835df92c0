-- ===== src/Command/Send.antt =====
-- kernelmode/vgpu/command.c: the functions that send one command each.
use mvisor_win_vgpu_driver.Common.{ℕ, ◌+◌, Bool, false, Option, List, [], ◌∷◌, ◌++◌, if◌then◌else◌}
use mvisor_win_vgpu_driver.Memory.{MemoryDescriptor, ulong}
use mvisor_win_vgpu_driver.Wire.{
  CtrlType, Command, Body, sizeof, ResourceCreateParam, BlobResourceCreateParam, TransferHost3d,
  TransferToHost2d, sizeof_resp_map_info,
}
use mvisor_win_vgpu_driver.Driver.{Driver, VgpuBuffer, Resource, null}
use mvisor_win_vgpu_driver.Os.{Os, Descriptor}
use mvisor_win_vgpu_driver.Command.Sg.{build_sg_element, sglist_size}
use mvisor_win_vgpu_driver.Command.Push.{
  command_queue, control_queue, hdr, fenced, push_queue, allocate_command_buffer, send_command,
}

-- "tenclass"
abbrev pub debug_name : List ℕ
debug_name = b't' ∷ b'e' ∷ b'n' ∷ b'c' ∷ b'l' ∷ b'a' ∷ b's' ∷ b's' ∷ []

module _ (os : Os) where
  unfoldable pub create_virgl_context : ℕ → ℕ → Driver → Driver
  create_virgl_context id context_init =
      send_command os control_queue
        (record {
          hdr = hdr CtrlType.ctx_create id;
          body = Body.context_request 8 context_init debug_name;
        })
        0 false

  unfoldable pub destroy_virgl_context : ℕ → Driver → Driver
  destroy_virgl_context id =
      send_command os control_queue
        (record { hdr = hdr CtrlType.ctx_destroy id; body = Body.header_only }) 0 false

  unfoldable pub transfer_to_host_2d : ℕ → TransferToHost2d → Driver → Driver
  transfer_to_host_2d id transfer =
      send_command os command_queue
        (record { hdr = hdr CtrlType.transfer_to_host_2d id; body = Body.transfer_2d transfer }) 0
        false

  unfoldable pub transfer_host_3d : ℕ → TransferHost3d → ℕ → Bool → Driver → Driver
  transfer_host_3d id transfer fence_id to_host =
      let t = if to_host then CtrlType.transfer_to_host_3d else CtrlType.transfer_from_host_3d in
      send_command os command_queue
        (record { hdr = fenced fence_id (hdr t id); body = Body.transfer_3d transfer }) 0 false

  unfoldable pub create_2d_resource : ℕ → ℕ → ResourceCreateParam → ℕ → Driver → Driver
  create_2d_resource id resource_id create fence_id =
      send_command os command_queue
        (record {
          hdr = fenced fence_id (hdr CtrlType.resource_create_2d id);
          body = Body.create_2d (record {
            resource_id = resource_id;
            format = create.format;
            width = create.width;
            height = create.height;
          });
        })
        0 false

  unfoldable pub create_3d_resource : ℕ → ℕ → ResourceCreateParam → ℕ → Driver → Driver
  create_3d_resource id resource_id create fence_id =
      send_command os command_queue
        (record {
          hdr = fenced fence_id (hdr CtrlType.resource_create_3d id);
          body = Body.create_3d (record {
            resource_id = resource_id;
            format = create.format;
            width = create.width;
            height = create.height;
            target = create.target;
            bind = create.bind;
            depth = create.depth;
            array_size = create.array_size;
            last_level = create.last_level;
            nr_samples = create.nr_samples;
            flags = create.flags;
          });
        })
        0 false

  unfoldable pub create_blob_resource : ℕ → ℕ → BlobResourceCreateParam → ℕ → Driver → Driver
  create_blob_resource id resource_id create fence_id =
      send_command os command_queue
        (record {
          hdr = fenced fence_id (hdr CtrlType.resource_create_blob id);
          body = Body.create_blob (record {
            resource_id = resource_id;
            blob_mem = create.blob_mem;
            blob_flags = create.blob_flags;
            blob_id = create.blob_id;
            size = create.size;
            nr_entries = create.nr_entries;
            format = create.format;
            bind = create.bind;
            target = create.target;
            width = create.width;
            height = create.height;
            depth = create.depth;
            array_size = create.array_size;
            last_level = create.last_level;
            nr_samples = create.nr_samples;
            flags = create.flags;
          });
        })
        0 false

  unfoldable pub map_blob_resource : ℕ → ℕ → ℕ → Driver → Driver
  map_blob_resource id resource_id fence_id =
      send_command os command_queue
        (record {
          hdr = fenced fence_id (hdr CtrlType.resource_map_blob id);
          body = Body.resource resource_id;
        })
        sizeof_resp_map_info false

  unfoldable pub unmap_blob_resource : ℕ → ℕ → ℕ → Driver → Driver
  unmap_blob_resource id resource_id fence_id =
      send_command os command_queue
        (record {
          hdr = fenced fence_id (hdr CtrlType.resource_unmap_blob id);
          body = Body.resource resource_id;
        })
        0 false

  unfoldable pub attach_resource_backing : ℕ → Resource → Driver → Driver
  attach_resource_backing id r =
      send_command os command_queue
        (record {
          hdr = hdr CtrlType.resource_attach_backing id;
          body = Body.attach (record {
            resource_id = r.id;
            nr_entries = 0;
            gpa = r.buffer.memory.physical_address;
            size = ulong r.buffer.size;
          });
        })
        0 false

  -- The header's context is not set, so it stays zero.
  unfoldable pub detach_resource_backing : Resource → Driver → Driver
  detach_resource_backing r =
      send_command os command_queue
        (record { hdr = hdr CtrlType.resource_detach_backing 0; body = Body.resource r.id }) 0 false

  unfoldable pub attach_resource : ℕ → ℕ → Driver → Driver
  attach_resource id resource_id =
      send_command os command_queue
        (record { hdr = hdr CtrlType.ctx_attach_resource id; body = Body.resource resource_id }) 0
        false

  unfoldable pub detach_resource : ℕ → ℕ → Driver → Driver
  detach_resource id resource_id =
      send_command os command_queue
        (record { hdr = hdr CtrlType.ctx_detach_resource id; body = Body.resource resource_id }) 0
        false

  unfoldable pub unref_resource : ℕ → ℕ → Driver → Driver
  unref_resource id resource_id =
      send_command os command_queue
        (record { hdr = hdr CtrlType.resource_unref id; body = Body.resource resource_id }) 0 false

  -- The command stream stands in memory that the device shares, and gets a descriptor of its own.
  unfoldable pub submit_command :
      ℕ → MemoryDescriptor → ℕ → ℕ → Option (List ℕ) → ℕ → ℕ → ℕ → Driver → ℕ × Driver
  submit_command id memory buf_size size ids ids_count fence_id fence_object d =
      let command : Command = record {
        hdr = fenced fence_id (hdr CtrlType.submit_3d id);
        body = Body.submit (ulong size);
      } in
      let buffer : VgpuBuffer =
        record (allocate_command_buffer os (sizeof command.body) 0 false null command) {
          resource_ids = ids;
          resource_ids_count = ids_count;
          data_buf = memory.virtual_address;
          data_buf_size = buf_size;
          fence_object = fence_object;
        } in
      let (out_num, out) =
        build_sg_element os.physical_address sglist_size buffer.buf (sizeof command.body) in
      let stream : Descriptor = record {
        phys_addr = memory.physical_address;
        length = ulong size;
      } in
      push_queue os command_queue (out ++ stream ∷ []) (out_num + 1) 0 buffer d
