-- ===== src/Kernel/Examples.antt =====
-- A host that awaits a DHCP offer, a host with an address, and a small allocator, as concrete
-- inputs.
use conc_os.Common.{
  ℕ, ◌≡◌, ◌+◌, refl, List, [], ◌∷◌, ◌++◌, true, false, none, some, arith, replicate, inl,
}
use conc_os.Common.Slices.{IsBytes}
use conc_os.Net.Addr.{MacAddress, Ipv4Addr}
use conc_os.Net.Ipv4
use conc_os.Net.Ipv4.{Ipv4Packet}
use conc_os.Net.Arp.Cache
use conc_os.Net.Arp.Cache.Invariant.{new-IsCache}
use conc_os.Kernel.Host.{idle, selecting, Env, Host}
use conc_os.Kernel.Runs.{Ends}
use conc_os.Net.Arp.Packet
use conc_os.Net.Arp.Packet.{ArpPacket}
use conc_os.Kernel.Interface.Resolve.{resolved_by, handle_arp_delivers}
use conc_os.Kernel.Interface.{handle_arp}
use conc_os.Kernel.Receive.{process_all}
use conc_os.Kernel.Receive.Safety.{
  IsConfigured, IsFixed, process_all-IsConfigured, process_all-IsFixed,
}
use conc_os.Kernel.Pages.{
  Allocator, Region, find_contiguous_pages, alloc_contiguous_pages, dealloc_contiguous_pages,
}
use conc_os.Kernel.Pages
use conc_os.Kernel.Pages.Frames.{used, IsAllocator}
use conc_os.Kernel.Pages.Alloc.{Allocated, alloc_contiguous_pages-Allocated, alloc-dealloc}

abbrev env : Env
env = record { takes = λ frame. true; rand = λ n. some (n + 7) }

abbrev own_mac : MacAddress
own_mac = record { a0 = 0x52; a1 = 0x54; a2 = 0; a3 = 0x12; a4 = 0x34; a5 = 0x56 }

abbrev own_addr : Ipv4Addr
own_addr = record { o0 = 10; o1 = 0; o2 = 2; o3 = 15 }

abbrev router : Ipv4Addr
router = record { o0 = 10; o1 = 0; o2 = 2; o3 = 2 }

abbrev waiting : Host
waiting = record {
  interface = record {
    mac = own_mac;
    ipv4 = none;
    gateway = none;
    subnet_mask = none;
    arp = Cache.new;
    dhcp = selecting 7;
  };
  sent = [];
  draws = 2;
}

abbrev configured : Host
configured = record {
  interface = record {
    mac = own_mac;
    ipv4 = some own_addr;
    gateway = some router;
    subnet_mask = some (record { o0 = 255; o1 = 255; o2 = 255; o3 = 0 });
    arp = Cache.new;
    dhcp = idle;
  };
  sent = [];
  draws = 0;
}

-- An ARP request for the interface's address, as a broadcast frame.
abbrev arp_frame : List ℕ
arp_frame =
    replicate 6 255
    ++ (0x52 ∷ 0x55 ∷ 10 ∷ 0 ∷ 2 ∷ 2 ∷ 8 ∷ 6 ∷ 0 ∷ 1 ∷ 8 ∷ 0 ∷ 6 ∷ 4 ∷ 0 ∷ 1 ∷ 0x52 ∷ 0x55 ∷ 10 ∷ 0
        ∷ 2 ∷ 2 ∷ 10 ∷ 0 ∷ 2 ∷ 2 ∷ 0 ∷ 0 ∷ 0 ∷ 0 ∷ 0 ∷ 0 ∷ 10 ∷ 0 ∷ 2 ∷ 15 ∷ [])

arp_frame-IsBytes : IsBytes arp_frame
arp_frame-IsBytes = ground arith

waiting-IsConfigured : IsConfigured waiting.interface
waiting-IsConfigured = record { cache = new-IsCache; whole = inl (refl, refl, refl) }

process_all-IsConfigured_example :
    Ends
      (process_all env (arp_frame ∷ (1 ∷ 2 ∷ []) ∷ []) waiting)
      (λ _ h'. IsConfigured h'.interface × (h'.interface.mac ≡ own_mac))
process_all-IsConfigured_example =
    process_all-IsConfigured env (λ f. refl) (arp_frame ∷ (1 ∷ 2 ∷ []) ∷ []) waiting
      (arp_frame-IsBytes, (ground arith, tt)) waiting-IsConfigured

process_all-IsFixed_example :
    Ends
      (process_all env (arp_frame ∷ arp_frame ∷ []) configured)
      (λ _ h'. IsFixed configured.interface h'.interface)
process_all-IsFixed_example =
    process_all-IsFixed env (λ f. refl) (arp_frame ∷ arp_frame ∷ []) configured
      (arp_frame-IsBytes, (arp_frame-IsBytes, tt)) refl

-- An echo request from the router, whose checksum verifies.
abbrev ping : Ipv4Packet
ping = record {
  version_ihl = 0x45;
  dscp_ecn = 0;
  total_length = 30;
  id = 5;
  frag_offset = 0;
  dont_fragment = false;
  more_fragments = false;
  ttl = 64;
  protocol = Ipv4.icmp;
  checksum = 0;
  source = router;
  dest = own_addr;
  options = [];
  payload = 8 ∷ 0 ∷ 0xf6 ∷ 0xfd ∷ 0 ∷ 1 ∷ 0 ∷ 1 ∷ 1 ∷ 0 ∷ [];
}

-- The router's answer, while two packets wait for it.
abbrev router_reply : ArpPacket
router_reply = record {
  hardware_type = 1;
  protocol_type = 0x0800;
  hardware_len = 6;
  proto_len = 4;
  operation = Packet.reply;
  sender_mac = record { a0 = 0x52; a1 = 0x55; a2 = 10; a3 = 0; a4 = 2; a5 = 2 };
  sender_addr = router;
  target_mac = own_mac;
  target_addr = own_addr;
}

abbrev two_parked : Host
two_parked = record configured {
  interface = record configured.interface {
    arp = record { entries = (router, Cache.pending ((1 ∷ 2 ∷ []) ∷ (3 ∷ 4 ∷ []) ∷ [])) ∷ [] };
  };
}

handle_arp_delivers_example :
    (handle_arp env router_reply two_parked ≡ some (tt, resolved_by router_reply two_parked))
    × (Cache.waiting (resolved_by router_reply two_parked).interface.arp router ≡ [])
    × (Cache.lookup (resolved_by router_reply two_parked).interface.arp router
        ≡ some router_reply.sender_mac)
handle_arp_delivers_example = handle_arp_delivers env router_reply two_parked (λ f. refl) refl refl

-- Sixteen frames, of which the first three and the sixth are used.
abbrev small : Allocator
small = record { bitmap = 0x27 ∷ 0x00 ∷ []; num_frames = 16 }

small-IsAllocator : IsAllocator small
small-IsAllocator = record { bytes = ground arith; room = omega arith }

alloc_contiguous_pages-Allocated_example : Allocated small 4 (alloc_contiguous_pages small 4)
alloc_contiguous_pages-Allocated_example =
    alloc_contiguous_pages-Allocated small 4 small-IsAllocator (omega arith) (omega arith)

four_allocated :
    alloc_contiguous_pages small 4
    ≡ some (some 0x6000, record { bitmap = 0xe7 ∷ 0x03 ∷ []; num_frames = 16 })
unfolding alloc_contiguous_pages
four_allocated = refl

alloc-dealloc_example :
    (b : Allocator) × (dealloc_contiguous_pages
        (record { bitmap = 0xe7 ∷ 0x03 ∷ []; num_frames = 16 })
        0x6000
        4
      ≡ some b)
    × (b.num_frames ≡ 16)
    × ((p : ℕ) → used b p ≡ used small p)
alloc-dealloc_example =
    alloc-dealloc small (record { bitmap = 0xe7 ∷ 0x03 ∷ []; num_frames = 16 }) 4 0x6000
      small-IsAllocator (omega arith) (omega arith) four_allocated

-- A machine with 64 KiB of usable memory after 4 KiB that are not: one frame holds the bitmap.
small_machine :
    Pages.new (
      record { start_addr = 0; end_addr = 0x1000; usable = false }
      ∷ record { start_addr = 0x1000; end_addr = 0x10000; usable = true }
      ∷ [])
    ≡ some (record { bitmap = 0x03 ∷ 0x00 ∷ []; num_frames = 16 })
unfolding Pages.new
small_machine = refl
