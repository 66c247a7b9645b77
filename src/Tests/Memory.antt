-- ===== src/Tests/Memory.antt =====
-- Runs of the theorems on the store, over an NVS that is a map.
use espos_p4_cockpit.Prelude.{refl, true, [], ◌∷◌, arith, if◌then◌else◌, codes, str_iff}
use espos_p4_cockpit.Prelude.Dict.{Dict, lookup, insert, erase, has, lookup-insert, lookup-erase}
use espos_p4_cockpit.Store.{ok, not_found, Nvs, uninit, Store}
use espos_p4_cockpit.Store.RoundTrip.{Entry, blob, byte, blob_of, byte_of, size_of, IsReliable}

abbrev pub memory : Nvs
memory = record {
  State = Dict Entry;
  init_partition = λ w. (ok, w);
  erase_partition = λ w. [];
  open_ro = λ w. (ok, w);
  open_rw = λ w. (ok, w);
  close = λ w. w;
  blob_size = λ k w. size_of (blob_of (lookup k w));
  get_blob = λ k w. blob_of (lookup k w);
  set_blob = λ k b w. (ok, insert k (blob b) w);
  get_u8 = λ k w. byte_of (lookup k w);
  set_u8 = λ k n w. (ok, insert k (byte n) w);
  erase_key = λ k w. (if has k w then ok else not_found, erase k w);
  commit = λ w. (ok, w);
}

pub memory-IsReliable : IsReliable memory
memory-IsReliable = record {
  holds = λ k w. lookup k w;
  opening = λ k w. refl;
  reading = λ k w. refl;
  closing = λ k w. refl;
  committing = λ k w. refl;
  blobs = λ k w. refl;
  sizes = λ k w. refl;
  bytes = λ k w. refl;
  setting_blob = λ j k b w. lookup-insert j k (blob b) w;
  setting_u8 = λ j k n w. lookup-insert j k (byte n) w;
  erasing = λ j k w. ground (arith, lookup-erase j k w, str_iff j k);
  missing = λ k w e. ground arith;
}

abbrev pub mounted : Store memory
mounted = record { ready = true; boot_report = uninit; nvs = [] }

abbrev filled : Store memory
filled = record { ready = true; boot_report = uninit; nvs = ("layout", blob (codes "{}")) ∷ [] }
