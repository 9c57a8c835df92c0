-- ===== src/Ownership/Reach/Events.antt =====
-- Histories of the driver of kernelmode/vgpu: requests, interrupts and ends of processes in any
-- order, from the moment the hardware is prepared.
use mathlib.Core.Path.{subst}
use mvisor_win_vgpu_driver.Memory.Regions.{Holds, bit_count}
use mvisor_win_vgpu_driver.Control.Resources.{next_resource_id}
use mvisor_win_vgpu_driver.Control.Submission.{next_fence_id}
use mvisor_win_vgpu_driver.Idr.{get_id_from_idr_without_cache, initialize_idr}
use mvisor_win_vgpu_driver.Common.{
  refl, sym, ℕ, ◌+◌, ◌*◌, ◌^◌, ◌≤◌, ◌<◌, ◌≡◌, Bool, true, Option, List, [], ◌∷◌, arith,
}
use mvisor_win_vgpu_driver.Memory.{page_size, initialize_vgpu_memory}
use mvisor_win_vgpu_driver.Memory.Bitmap.{Rtl, RtlLaws, bitmap_failed}
use mvisor_win_vgpu_driver.Driver.{Driver, status_success}
use mvisor_win_vgpu_driver.Os.{Os, Interrupt}
use mvisor_win_vgpu_driver.Request.{Request}
use mvisor_win_vgpu_driver.Interrupt.{interrupt_dpc}
use mvisor_win_vgpu_driver.Ioctl.{io_control}
use mvisor_win_vgpu_driver.Device.{
  process_notify, Hardware, prepare_hardware, set_up_memory, read_config,
}
use mvisor_win_vgpu_driver.Ownership.Memory.{covers_claim}
use mvisor_win_vgpu_driver.Ownership.Totals.{total}
use mvisor_win_vgpu_driver.Ownership.Invariant.{Owned, nothing, claims}
use mvisor_win_vgpu_driver.Ownership.Steps.{next_id}
use mvisor_win_vgpu_driver.Ownership.Completion.{interrupt_dpc-Owned}
use mvisor_win_vgpu_driver.Ownership.Deletion.{process_notify-Owned}
use mvisor_win_vgpu_driver.Ownership.Reach.{io_control-Owned}

-- What happens to the driver, with the answers that the kernel and the device give meanwhile.
pub data Event : Type 0 where
  request : Os → Request → ℕ → Event
  interrupt : Os → Option ℕ → Interrupt → Event
  process : Os → ℕ → Bool → Event

module _ (rtl : Rtl) where
  -- All of them search the bitmap in the same way.
  abbrev pub happen : Event → Driver → Driver
  happen (request os r code) d = (io_control (record os { rtl = rtl }) r code d).1
  happen (interrupt os message i) d = interrupt_dpc (record os { rtl = rtl }) message i d
  happen (process os id create) d = process_notify (record os { rtl = rtl }) id create d

  abbrev pub run : List Event → Driver → Driver
  run [] d = d
  run (e ∷ es) d = run es (happen e d)

  -- Before each event the driver has 32-bit resource identifiers left.
  abbrev pub HasIds : List Event → Driver → Type 0
  HasIds [] d = Unit
  HasIds (e ∷ es) d = (next_id d < 2 ^ 32) × HasIds es (happen e d)

  module _ (laws : RtlLaws rtl) where
    happen-Owned :
        (e : Event) (d : Driver) → next_id d < 2 ^ 32 → Owned nothing d → Owned nothing (happen e d)
    happen-Owned (request os r code) d room o =
        io_control-Owned (record os { rtl = rtl }) laws r code d o room
    happen-Owned (interrupt os message i) d room o =
        interrupt_dpc-Owned (record os { rtl = rtl }) laws nothing message i d o
    happen-Owned (process os id create) d room o =
        process_notify-Owned (record os { rtl = rtl }) laws nothing id create d o

    -- Any history of requests, interrupts and process ends keeps the invariant, while resource
    -- identifiers are left and the bitmap search is lawful.
    pub run-Owned :
        (es : List Event) (d : Driver) → HasIds es d → Owned nothing d → Owned nothing (run es d)
    run-Owned [] d room o = o
    run-Owned (e ∷ es) d room o = run-Owned es (happen e d) room.1 (happen-Owned e d room.0 o)

-- Configuration that `DevicePrepareHardware` accepts: whole pages, a bitmap for them, and addresses
-- that fit.
pub record Accepts (h : Hardware) (pages : ℕ) : Type 0 where
  pub buffer : h.bitmap_buffer ≡ true
  pub sized : h.memory_size ≡ pages * page_size
  pub numbered : pages < bitmap_failed
  pub addressed : h.memory_address + pages * page_size < 2 ^ 64

abbrev pub prepared : Hardware → Driver → Driver
prepared h d = record (set_up_memory h (read_config h d)) { contexts = []; idrs = initialize_idr }

pub prepare_hardware-prepared :
    (h : Hardware) (d : Driver)
    → (prepare_hardware h d).0 ≡ status_success
    → (prepare_hardware h d).1 ≡ prepared h d
unfolding prepare_hardware
prepare_hardware-prepared h d done = ground arith

prepared-Owned :
    (h : Hardware) (pages : ℕ) (d : Driver)
    → Accepts h pages
    → d.command_queue ≡ []
    → d.control_queue ≡ []
    → Owned nothing (prepared h d)
unfolding initialize_vgpu_memory initialize_idr
prepared-Owned h pages d a none_there none_here =
    rw (a.buffer, a.sized, none_there, none_here)
      (record {
        backs = record {
          backed = λ i. omega arith;
          placed = omega arith;
          accounted = omega (arith, a.numbered);
          numbered = omega (arith, a.numbered);
          addressed = omega (arith, a.numbered, a.addressed);
        };
        fresh = λ j h. omega arith;
        blobs = λ j h. omega arith;
      })

-- Preparing the hardware, with no buffer outstanding, sets the invariant up.
pub prepare_hardware-Owned :
    (h : Hardware) (pages : ℕ) (d : Driver)
    → Accepts h pages
    → d.command_queue ≡ []
    → d.control_queue ≡ []
    → (prepare_hardware h d).0 ≡ status_success
    → Owned nothing (prepare_hardware h d).1
prepare_hardware-Owned h pages d a none_there none_here done =
    subst (Owned nothing) (sym (prepare_hardware-prepared h d done))
      (prepared-Owned h pages d a none_there none_here)

prepared-Holds :
    (h : Hardware) (pages : ℕ) (d : Driver) → Accepts h pages → Holds [] (prepared h d).memory
unfolding initialize_vgpu_memory
prepared-Holds h pages d a = rw (a.buffer, a.sized) (omega (arith, a.numbered, a.addressed))

-- Preparing the hardware successfully, with a configuration of whole pages that fit and no buffer
-- outstanding, sets the invariant up with nothing given out: all guest memory is free and available,
-- no process has a context, and the first identifier of a resource and of a fence is 1.
pub prepare_hardware_lem :
    (h : Hardware) (pages : ℕ) (d : Driver)
    → Accepts h pages
    → d.command_queue ≡ []
    → d.control_queue ≡ []
    → (prepare_hardware h d).0 ≡ status_success
    → let ready = (prepare_hardware h d).1 in
      Owned nothing ready
      × Holds [] ready.memory
      × (ready.memory.available ≡ pages * page_size)
      × (ready.contexts ≡ [])
      × ((next_resource_id ready).0 ≡ 1)
      × ((next_fence_id ready).0 ≡ 1)
unfolding initialize_vgpu_memory initialize_idr next_resource_id next_fence_id
    get_id_from_idr_without_cache
prepare_hardware_lem h pages d a none_there none_here done =
    let holds = prepared-Holds h pages d a in
    let full : (prepared h d).memory.available ≡ pages * page_size = rw (a.buffer, a.sized) refl in
    rw (prepare_hardware-prepared h d done)
      (prepared-Owned h pages d a none_there none_here, holds, full, refl, refl, refl)

-- How many resources and outstanding commands use page `i` of the guest memory.
abbrev pub users : ℕ → Driver → ℕ
users i d = total (claims (covers_claim d.memory.virtual_address i)) d

-- In any history of a device that was prepared, while resource identifiers are left and the bitmap
-- search is lawful, no page of guest memory has two users among the resources of all processes and
-- the commands that the device has not returned, and a page that has one is not free.
pub run-users :
    (i : ℕ) (rtl : Rtl) (h : Hardware) (pages : ℕ) (d : Driver) (es : List Event)
    → RtlLaws rtl
    → Accepts h pages
    → d.command_queue ≡ []
    → d.control_queue ≡ []
    → (prepare_hardware h d).0 ≡ status_success
    → HasIds rtl es (prepare_hardware h d).1
    → let now = run rtl es (prepare_hardware h d).1 in
      users i now ≤ bit_count (now.memory.bitmap.bit i)
run-users i rtl h pages d es laws a none_there none_here done room =
    let o =
      run-Owned rtl laws es _ room (prepare_hardware-Owned h pages d a none_there none_here done) in
    omega (arith, o.backs.backed i)
