-- ===== src/Kernel/Receive.antt =====
-- kernel/src/task/network.rs, `process_rx`: a received frame is parsed and handed to the interface.
pub mod Safety
use conc_os.Common.{[], ◌∷◌, ℕ, List, Result, ok, err, panic, ltb, if◌then◌else◌, length}
use conc_os.Common.Slices.{range}
use conc_os.Net.Addr.{MacAddress, mac_from_slice}
use conc_os.Net.Ethernet.{EthernetFrame, EthernetError, new}
use conc_os.Kernel.Host.{Env, M, ◌>>=◌, ◌>>◌, return, done, crash}
use conc_os.Kernel.Interface.{handle_packet}
use conc_os.Common.{◌∷◌}

-- An index or an `expect` of the caller, where anything but a value is a panic.
abbrev pub must : {A : Type 0} → Result EthernetError A → M A
must (ok a) = return a
must (err e) = crash
must panic = crash

module _ (env : Env) where
  abbrev received : Result EthernetError EthernetFrame → MacAddress → M (Unit {0})
  unfolding handle_packet
  received (ok packet) dst = handle_packet env packet dst
  received (err e) dst = done
  received panic dst = crash

  -- `process_rx`, without what it prints
  unfoldable pub process_rx : List ℕ → M (Unit {0})
  unfolding received
  process_rx packet = if ltb (length packet) 14 then done else (do
    dst_bytes ← must (range packet 0 6)
    dst ← must (mac_from_slice dst_bytes)
    src_bytes ← must (range packet 6 12)
    src ← must (mac_from_slice src_bytes)
    received (new packet) dst)

  -- The frames of `handle_queue_interrupt`, in the order in which the driver gives them.
  unfoldable pub process_all : List (List ℕ) → M (Unit {0})
  unfolding process_rx
  process_all [] = done
  process_all (packet ∷ packets) = do process_rx packet; process_all packets
