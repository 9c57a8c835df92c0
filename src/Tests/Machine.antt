-- ===== src/Tests/Machine.antt =====
-- A machine for the tests: a kernel and a device that always answer, and a process that opens a
-- context and creates a resource of two pages.
use mvisor_win_vgpu_driver.Common.{
  ℕ, zero, suc, ◌+◌, ◌*◌, true, false, none, some, List, [], ◌∷◌, ◌++◌,
}
use mvisor_win_vgpu_driver.Idr.{initialize_idr}
use mvisor_win_vgpu_driver.Memory.{page_size, zeroed_memory}
use mvisor_win_vgpu_driver.Wire.{CtrlType, Body}
use mvisor_win_vgpu_driver.Driver.{Driver, VgpuBuffer}
use mvisor_win_vgpu_driver.Os.{Os}
use mvisor_win_vgpu_driver.Request.{Request}
use mvisor_win_vgpu_driver.Command.Push.{hdr}
use mvisor_win_vgpu_driver.Device.{Hardware}
use mvisor_win_vgpu_driver.Tests.FirstFit.{first_fit}
use mvisor_win_vgpu_driver.Tests.Fences.{resource}

abbrev stale_buffer : VgpuBuffer
stale_buffer = record {
  command = record { hdr = hdr CtrlType.undefined 0; body = Body.header_only };
  buf = 0;
  resp_buf = 0;
  event = false;
  request = 0;
  data_buf = 0;
  data_buf_size = 0;
  resource_ids = none;
  resource_ids_count = 0;
  fence_object = 0;
}

abbrev pub machine : Os
machine = record {
  rtl = first_fit;
  stale_buffer = stale_buffer;
  stale_resource = some (resource 0);
  pool_address = 0x70_0000;
  pool_for_context = true;
  pool_for = λ n. true;
  physical_address = λ a. a + 0x8000_0000;
  add_buf = λ q l ds m n. 0;
  map_io_space = λ gpa size. gpa + 0x10_0000;
  allocate_mdl = λ a n. 0x5000;
  map_locked_pages = λ mdl. some 0x6000;
  process_id = 100;
  probe_and_lock = λ a n. 0;
  memory_buffer = λ a n. some [];
  reference_object = λ h. (0, 0x7000);
  wait_for_object = λ o. 0;
  interrupts = [];
  event_status = λ ctx id. some 0;
  staging = 0;
  capset_info = λ i. record { id = 1; max_version = 1; max_size = 64 };
  capset_data = λ id version. [];
}

abbrev pub zeros : ℕ → List ℕ
zeros zero = []
zeros (suc n) = 0 ∷ zeros n

abbrev pub hardware : Hardware
hardware = record {
  init_status = 0;
  num_queues = 2;
  capabilities = 1;
  memory_size = 16 * page_size;
  num_capsets = 1;
  memory_address = 0x10000;
  memory_physical = 0x8000_0000;
  bitmap_buffer = true;
  lock_status = λ i. 0;
}

-- The driver before the hardware is prepared.
abbrev pub loaded : Driver
loaded = record {
  idrs = initialize_idr;
  memory = zeroed_memory;
  capsets = record { initialized = false; num_caps = 0; entries = []; capset_id_mask = 0 };
  contexts = [];
  command_queue = [];
  control_queue = [];
  num_virt_queues = 0;
  capabilities = 0;
  effects = [];
}

abbrev pub init_request : Request
init_request = record { input_status = 0; input = zeros 16; output_status = 0; output_length = 0 }

-- 5000 bytes, which take two pages.
abbrev pub create_request : Request
create_request = record {
  input_status = 0;
  input = zeros 48 ++ 0x88 ∷ 0x13 ∷ zeros 6;
  output_status = 0;
  output_length = 8;
}
