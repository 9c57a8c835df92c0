-- ===== src/Request.antt =====
-- A device control request as kernelmode/vgpu/control.c sees it: its input as bytes, and what is
-- written to its output. The framework's calls answer from the fields of the request.
use mvisor_win_vgpu_driver.Common.{ℕ, zero, suc, ◌+◌, ◌*◌, List, [], ◌∷◌, length, get_or, ◌==◌}
use mvisor_win_vgpu_driver.Driver.{Driver, status_unsuccessful}
use mvisor_win_vgpu_driver.Exec.{Exec, ok, nt_success, ◌>>◌, return, read, modify, unless}

-- A WDFREQUEST: the statuses that retrieving its buffers gives, the bytes of its input buffer and
-- the length of its output buffer.
pub record Request : Type 0 where
  pub input_status : ℕ
  pub input : List ℕ
  pub output_status : ℕ
  pub output_length : ℕ

-- What a handler wrote to the output buffer: one byte, one integer of 32 or 64 bits, the two equal
-- handles of a `drm_virtgpu_resource_create_resp`, or the data of a capset.
pub data Output : Type 0 where
  untouched : Output
  one_byte : ℕ → Output
  u32 : ℕ → Output
  u64 : ℕ → Output
  handle : ℕ → Output
  caps : List ℕ → Output

-- The state that a handler works on: the driver, `*bytesReturn` and the output buffer.
pub record Io : Type 0 where
  pub driver : Driver
  pub bytes_return : ℕ
  pub output : Output

-- Little-endian fields of a structure.
abbrev pub u8_at : List ℕ → ℕ → ℕ
u8_at bytes offset = get_or bytes offset 0

unfoldable pub u32_at : List ℕ → ℕ → ℕ
u32_at bytes offset =
    u8_at bytes offset
    + 0x100 * u8_at bytes (offset + 1)
    + 0x1_0000 * u8_at bytes (offset + 2)
    + 0x100_0000 * u8_at bytes (offset + 3)

unfoldable pub u64_at : List ℕ → ℕ → ℕ
unfolding u32_at
u64_at bytes offset = u32_at bytes offset + 0x1_0000_0000 * u32_at bytes (offset + 4)

-- The `n` integers of an array.
unfoldable pub u32_array : ℕ → ℕ → List ℕ → List ℕ
u32_array zero offset bytes = []
u32_array (suc n) offset bytes = u32_at bytes offset ∷ u32_array n (offset + 4) bytes

unfoldable pub set_bytes_return : ℕ → Exec Io (Unit {0})
unfolding modify
set_bytes_return n = modify (λ s. record s { bytes_return = n })

unfoldable pub write_output : Output → Exec Io (Unit {0})
unfolding modify
write_output o = modify (λ s. record s { output = o })

unfoldable pub update_driver : (Driver → Driver) → Exec Io (Unit {0})
unfolding modify
update_driver f = modify (λ s. record s { driver = f s.driver })

unfoldable pub get_driver : Exec Io Driver
unfolding read
get_driver = read (λ s. s.driver)

-- A call that returns a value and changes the driver.
unfoldable pub call_driver : {A : Type 0} → (Driver → A × Driver) → Exec Io A
call_driver f s = let (a, d) = f s.driver in (ok a, record s { driver = d })

-- `WdfRequestRetrieveInputBuffer`, with the checks that follow each call of it: of its status, and
-- of the size that it stored to `*bytesReturn`. The value is the status. A failed call is taken to
-- store nothing.
unfoldable pub retrieve_input : Request → ℕ → Exec Io ℕ
retrieve_input request size = do
  unless (nt_success request.input_status) request.input_status
  set_bytes_return (length request.input)
  unless (length request.input == size) status_unsuccessful
  return request.input_status

-- `WdfRequestRetrieveOutputBuffer`, in the same way.
unfoldable pub retrieve_output : Request → ℕ → Exec Io ℕ
retrieve_output request size = do
  unless (nt_success request.output_status) request.output_status
  set_bytes_return request.output_length
  unless (request.output_length == size) status_unsuccessful
  return request.output_status
