-- ===== src/Kernel/Traces.antt =====
-- Concrete runs of the kernel: the mutexes, the queues that interrupt handlers fill, a DHCP
-- exchange, and the interrupt routes of a machine.
use conc_os.Common.{ℕ, ◌≡◌, ◌≢◌, refl, [], ◌∷◌, true, false}
use conc_os.Kernel.Locks.{
  Context, Cpu, boot, Reach, start, later, locks, interrupts, acts, holds_any, lock, advance, enter,
  begin, disable_if_saved, acquire,
}
use conc_os.Kernel.Locks.Safety.{held-Disabled}
use conc_os.Kernel.Streams.{
  AtomicWaker, Consumer, parked, rechecking, Stream, new, add, wake, poll_next, adds, finishes,
  polls, alone, stream_capacity,
}
use conc_os.Kernel.Streams
use conc_os.Kernel.Streams.Delivery.{held}
use conc_os.Kernel.Streams.Arrival.{accepted_in_order, delivered_soon}
use conc_os.Common.{◌≤◌}
use conc_os.Common.{◌++◌}
use conc_os.Common.{Bool}
use conc_os.Common.{length}
use conc_os.Common.{◌⊎◌}
use conc_os.Net.Dhcp
use conc_os.Net.Udp.{UdpPacket}
use conc_os.Net.Arp.Cache
use conc_os.Net.Dhcp.Replies.{Fields, message}
use conc_os.Net.Dhcp.Messages.{
  client, lease, offered, acknowledged, offered-IsLayout, offered-IsReply, acknowledged-IsLayout,
  acknowledged-IsReply,
}
use conc_os.Kernel.Host.{Env, Host, idle, ◌>>=◌, ◌>>◌}
use conc_os.Kernel.Interface.{init_dhcp, handle_udp}
use conc_os.Kernel.Interface.Exchange.{IsClientFrame, dhcp_exchange_configures}
use conc_os.Common.{List}
use conc_os.Common.{none}
use conc_os.Common.{some}
use conc_os.Kernel.Streams.{alone}
use conc_os.Kernel.Routes.{
  MadtEntry, io_apic, interrupt_source_override, other, init_acpi, isa_irq_to_gsi, route,
}
use conc_os.Kernel.Routes.{isa_irq_to_gsi-init_acpi}

-- Mutex 1 is being locked: the interrupt flag is read, and a device interrupts before it is
-- cleared; the handler holds mutex 2.
abbrev handling : Cpu
handling = record {
  enabled = false;
  running = record {
    guards = record { mutex = 2; saved_int = false } ∷ [];
    saved_int = false;
    todo = [];
  };
  interrupted =
      record { guards = []; saved_int = true; todo = disable_if_saved ∷ acquire 1 ∷ [] } ∷ [];
}

-- The code goes on by what `advance` gives.
goes :
    {first : Bool} {c : Cpu} (d : Cpu)
    → Reach first c
    → advance c.running.todo c ≡ some d
    → Reach first d
goes d r e = later r (acts e)

handling-Reach : Reach true handling
unfolding lock advance enter
handling-Reach =
    goes handling
      (goes (record handling { running = record none_held { todo = acquire 2 ∷ [] } })
        (goes
          (record handling {
            running = record none_held { todo = disable_if_saved ∷ acquire 2 ∷ [] };
          })
          (later
            (later {d = record handling { running = none_held }}
              (goes
                (record saving {
                  running = record none_held {
                    saved_int = true;
                    todo = disable_if_saved ∷ acquire 1 ∷ [];
                  };
                })
                (later {d = saving} start (locks 1 refl refl)) refl)
              (interrupts refl refl))
            (locks 2 refl refl))
          refl)
        refl)
      refl
  where
    none_held : Context
    none_held = record { guards = []; saved_int = false; todo = [] }

    saving : Cpu
    saving = begin (lock 1) (boot true)

held-Disabled_example :
    ((m : ℕ) → holds_any m handling.interrupted ≡ false)
    × (handling.running.guards ≢ [] → handling.enabled ≡ false)
    × (handling.running.todo ≡ []
        → handling.running.guards ≡ []
        → handling.interrupted ≡ []
        → handling.enabled ≡ true)
held-Disabled_example = held-Disabled handling-Reach

-- A waker of one bit.
abbrev bit : AtomicWaker Bool
bit = record {
  register = λ w. true;
  take = λ w. false;
  wakes = λ w. w;
  wakes-register = λ w. refl;
  wakes-take = λ w. refl;
}

-- The byte 65 comes after the task found the queue empty and before it is registered; the handler
-- wakes it after that.
abbrev crossed : Stream ℕ Bool
crossed = record {
  queue = 65 ∷ [];
  waker = false;
  scheduled = true;
  consumer = rechecking;
  waking = false;
  accepted = 65 ∷ [];
  delivered = [];
}

crossed-Reach : Streams.Reach bit false crossed
unfolding add wake poll_next
crossed-Reach = Streams.later {s = pushed_registered} registered_Reach (finishes refl refl)
  where
    polled : Stream ℕ Bool
    polled = poll_next bit (poll_next bit (new bit false))

    pushed_registered : Stream ℕ Bool
    pushed_registered = poll_next bit (add bit 65 polled)

    polled_Reach : Streams.Reach bit false polled
    polled_Reach =
        Streams.later {s = poll_next bit (new bit false)} (Streams.later Streams.start (polls refl))
          (polls refl)

    registered_Reach : Streams.Reach bit false pushed_registered
    registered_Reach =
        Streams.later {s = add bit 65 polled} (Streams.later polled_Reach (adds 65 refl refl))
          (polls refl)

accepted_in_order_example :
    (crossed.accepted ≡ crossed.delivered ++ (held crossed.consumer ++ crossed.queue))
    × (length crossed.queue ≤ stream_capacity)
    × (crossed.consumer ≡ parked
        → crossed.queue ≢ []
        → (crossed.scheduled ≡ true) ⊎ ((crossed.waking ≡ true) × (crossed.waker ≡ true)))
accepted_in_order_example = accepted_in_order bit crossed-Reach

delivered_soon_example : (n : ℕ) × (n ≤ 3) × ((alone bit n crossed).delivered ≡ 65 ∷ [])
delivered_soon_example = delivered_soon bit 65 [] crossed-Reach refl refl

abbrev quiet : Env
quiet = record { takes = λ frame. true; rand = λ n. some 0x12345678 }

abbrev unbound : Host
unbound = record {
  interface = record {
    mac = client;
    ipv4 = none;
    gateway = none;
    subnet_mask = none;
    arp = Cache.new;
    dhcp = idle;
  };
  sent = [];
  draws = 0;
}

abbrev served : Fields → UdpPacket
served f = record {
  source_port = 67;
  dest_port = 68;
  datagram_length = 300;
  checksum = 0;
  payload = message f;
}

dhcp_exchange_configures_example :
    (discover request : List ℕ) × IsClientFrame client
      (Dhcp.build_discover client 0x12345678)
      discover
    × IsClientFrame client (Dhcp.build_request client 0x12345678 lease) request
    × ((init_dhcp quiet >>= λ e.
            handle_udp quiet (served offered) >> handle_udp quiet (served acknowledged))
          unbound
        ≡ some (
          tt,
          record {
            interface = record unbound.interface {
              ipv4 = some lease.client_addr;
              subnet_mask = some lease.subnet_mask;
              gateway = some lease.gateway;
              dhcp = idle;
            };
            sent = discover ∷ request ∷ [];
            draws = 3;
          },
        ))
dhcp_exchange_configures_example =
    dhcp_exchange_configures quiet (λ n. 0x12345678) unbound (served offered) (served acknowledged)
      offered acknowledged lease lease (λ f. refl) (λ n. refl) refl
      (record { from_server = refl; to_client = refl; payload = refl; layout = offered-IsLayout })
      offered-IsReply
      (record {
        from_server = refl;
        to_client = refl;
        payload = refl;
        layout = acknowledged-IsLayout;
      })
      acknowledged-IsReply refl

-- The timer's line 0 is at interrupt 2.
abbrev machine : List MadtEntry
machine =
    io_apic 0 0xfec00000 0
    ∷ other
    ∷ interrupt_source_override 0 2 0
    ∷ interrupt_source_override 9 9 13
    ∷ []

isa_irq_to_gsi-init_acpi_example : isa_irq_to_gsi (init_acpi machine).isos 0 ≡ 2
unfolding route
isa_irq_to_gsi-init_acpi_example = isa_irq_to_gsi-init_acpi machine 0
