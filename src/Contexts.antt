-- ===== src/Contexts.antt =====
-- The adapter contexts of the driver with their reference counts and the global list of adapters:
-- the parts of AdapterCreate, AdapterHalt, TapDeviceCreate, TapDeviceClose, TapDiagDeviceCreate and
-- TapDiagDeviceClose that take and drop references, of src/adapter.h, src/adapter.c and
-- src/device.c.
pub mod Counted
use tap_windows.Base.{
  ℕ, zero, suc, ◌+◌, ◌-◌, ◌^◌, Bool, true, false, not, ◌&&◌, ◌||◌, List, [], ◌∷◌, ◌++◌, Option,
  none, some, ◌==◌, if◌then◌else◌, u32,
}
use tap_windows.Adapter.{is_open}

-- The members of TAP_ADAPTER_CONTEXT for this. `linked` says whether it is in the global list,
-- `halted` that AdapterHalt was called, `freed` that tapAdapterContextFree was; `diag_handles`
-- counts the files of the diagnostic device that are open.
pub record Context : Type 0 where
  pub device_object : ℕ
  pub diag_device_object : ℕ
  pub ref_count : ℕ
  pub linked : Bool
  pub tap_file_object : Option ℕ
  pub diag_handles : ℕ
  pub halted : Bool
  pub freed : Bool

-- tapAdapterContextReference
unfoldable pub reference : Context → Context
reference c = record c { ref_count = u32 (c.ref_count + 1) }

-- tapAdapterContextDereference
unfoldable pub dereference : Context → Context
dereference c =
    let count = u32 (c.ref_count + 2 ^ 32 - 1) in
    record c { ref_count = count; freed = if count == 0 then true else c.freed }

-- tapAdapterContextAllocate: the context of an adapter with these two devices, and 0 for none
unfoldable pub allocate : ℕ → ℕ → Context
allocate device diag = record {
  device_object = device;
  diag_device_object = diag;
  ref_count = 1;
  linked = false;
  tap_file_object = none;
  diag_handles = 0;
  halted = false;
  freed = false;
}

-- tapAdapterContextAddToGlobalList
unfoldable pub add_to_global_list : Context → Context
add_to_global_list c = record (reference c) { linked = true }

-- tapAdapterContextRemoveFromGlobalList
unfoldable pub remove_from_global_list : Context → Context
remove_from_global_list c = dereference (record c { linked = false })

-- AdapterHalt
unfoldable pub halt : Context → Context
halt c = dereference (remove_from_global_list (record c { halted = true }))

-- The loop of tapAdapterContextFromDeviceObject, and what its caller does with the context that it
-- finds. The contexts stand in the order in which they came into the list.
unfoldable pub from_device_object : ℕ → (Context → Context) → List Context → List Context
from_device_object device then_do [] = []
from_device_object device then_do (c ∷ cs) =
    let later = c ∷ from_device_object device then_do cs in
    if not (device == 0)
      && c.linked
      && (c.device_object == device || c.diag_device_object == device)
    then then_do (reference c) ∷ cs
    else later

-- TapDeviceCreate: the reference stays with the file, or goes if another file has the device.
unfoldable pub open_file : ℕ → Context → Context
open_file file c =
    if is_open c.tap_file_object then dereference c else record c { tap_file_object = some file }

-- TapDiagDeviceCreate
unfoldable pub open_diag : Context → Context
open_diag c = record c { diag_handles = suc c.diag_handles }

-- TapDeviceClose, called by the system for a file that has the device
unfoldable pub close_file : Context → Context
close_file c =
    if is_open c.tap_file_object then dereference (record c { tap_file_object = none }) else c

-- TapDiagDeviceClose, called for a file of the diagnostic device
unfoldable pub close_diag : Context → Context
close_diag c =
    if c.diag_handles == 0 then c else dereference (record c { diag_handles = c.diag_handles - 1 })

-- AdapterHalt is called once for an adapter.
unfoldable pub halt_once : Context → Context
halt_once c = if c.halted then c else halt c

unfoldable pub update : ℕ → (Context → Context) → List Context → List Context
update i f [] = []
update zero f (c ∷ cs) = f c ∷ cs
update (suc i) f (c ∷ cs) = c ∷ update i f cs

-- What the system asks of the driver: an adapter with its devices, an open of a device, a close or
-- a halt of the adapter at some place.
pub data Event : Type 0 where
  created : ℕ → ℕ → Event
  opened : ℕ → ℕ → Event
  diag_opened : ℕ → Event
  file_closed diag_closed halted_at : ℕ → Event

unfoldable pub handle : List Context → Event → List Context
handle cs (created device diag) = cs ++ (add_to_global_list (allocate device diag) ∷ [])
handle cs (opened device file) = from_device_object device (open_file file) cs
handle cs (diag_opened device) = from_device_object device open_diag cs
handle cs (file_closed i) = update i close_file cs
handle cs (diag_closed i) = update i close_diag cs
handle cs (halted_at i) = update i halt_once cs

unfoldable pub handle_all : List Context → List Event → List Context
handle_all cs [] = cs
handle_all cs (e ∷ es) = handle_all (handle cs e) es
