-- ===== src/Lib.antt =====
-- conc_os: an operating system kernel and its network stack.
--
-- The repository has two crates. `net` (net/src) is the part without hardware: packet formats as
-- pure transforms on byte slices, and the ARP cache. `kernel` (kernel/src) boots the machine, runs
-- the tasks and owns the network interface, which parses what it receives through
-- `EthernetFrame::new`, asks `ArpCache` for hardware addresses and parks packets in it, and
-- configures itself from DHCP replies. `process_rx` (kernel/src/task/network.rs) hands it what the
-- driver received. The kernel also owns the page frames of the machine.
--
-- Common           what the modules share: slices and indexing with their panics (also
--                  net/src/utils.rs), a result type with panic as a third outcome, lists, bit
--                  operations as arithmetic, and `BTreeMap` as an association list
-- Net.Addr         `MacAddress` (net/src/ethernet.rs) and `core::net::Ipv4Addr` as octets
-- Net.Checksum     `internet_checksum` (net/src/ipv4.rs)
-- Net.Ipv4         `Ipv4Packet::new`, `from_packet`, `serialize` (net/src/ipv4.rs)
-- Net.Udp          `UDPPacket::new`, `from_packet`, `serialize_ipv4` (net/src/udp.rs)
-- Net.Arp.Packet   `ArpPacket::serialize`, `from_slice` (net/src/arp.rs)
-- Net.Arp.Cache    `ArpCache` (net/src/arp.rs): each method is a function from the cache to the new
--                  cache and what the method returns; `step` performs a call
-- Net.Ethernet     `EthernetFrame::new` (net/src/ethernet.rs)
-- Net.Dhcp         `build_discover`, `build_request`, `parse_options`, `DHCPBinding::from_message`
--                  (net/src/dhcp.rs); Replies cuts a message into its fields, Settings are the
--                  options with their meaning
-- Kernel.Host      `NetworkInterface` and `DHCPState` (kernel/src/network/handler.rs), what the
--                  interface acts on, and `send_frame`; Runs says that a run ends, and what it keeps
-- Kernel.Interface the other methods of `NetworkInterface` (kernel/src/network/handler.rs); Sending
--                  follows a packet to its next hop; Traffic, Resolve, Echo, Configure, Exchange and
--                  Receive are about what sending keeps, an address that resolves, ICMP, DHCP step
--                  by step, a whole DHCP exchange and a whole packet
-- Kernel.Receive   `process_rx` (kernel/src/task/network.rs), for one frame and for a sequence
-- Kernel.Pages     `PhysicalPageAllocator` (kernel/src/allocation/ppa.rs); Frames reads the bitmap
--                  as used and free frames
-- Kernel.Random    the seed, `Csprng` and `Xorshift64` (kernel/src/rng.rs)
-- Kernel.Entropy   `init_entropy` and `get_random` over the statics of kernel/src/rng.rs
-- Kernel.Timers    `TimeTask` and `expire` (kernel/src/task/time.rs), `tick` (kernel/src/time.rs)
-- Kernel.Executor  `Executor` (kernel/src/task/executor.rs)
-- Kernel.Streams   the queues of kernel/src/task/network.rs and kernel/src/task/serial.rs (`add_event`,
--                  `add_byte`, `poll_next`) as a step relation: the handler and the task interleave at
--                  every access; Delivery has the invariant, Arrival what follows
-- Kernel.Locks     `InterruptMutex` (kernel/src/mutex.rs), action by action, as a step relation with
--                  interrupts between any two actions
-- Kernel.Screen    `Writer` (kernel/src/vga.rs)
-- Kernel.Terminal  `readline` (kernel/src/serial.rs)
-- Kernel.Pci       configuration space (kernel/src/pci.rs, kernel/src/acpi_handling.rs)
-- Kernel.Routes    `init_acpi` past its tables, and `isa_irq_to_gsi` (kernel/src/acpi_handling.rs)
-- Kernel.Scenarios a cipher, a clock, a screen, a terminal and a task, as concrete inputs
-- Kernel.Examples  an interface before and after its configuration, and a small bitmap
-- Kernel.Traces    a handler that interrupts a lock, a byte that arrives while the task registers, a DHCP exchange
--                  and the routes of a machine
-- Net.Dhcp.Messages  the replies of a DHCP server, as concrete inputs
-- Net.Examples, Net.Dhcp.Examples  the packets of the crate's tests, as concrete inputs
--
-- Bytes and machine words are natural numbers. The accumulator of `internet_checksum` is a `u32`
-- that wraps around, as in a release build. Its folding loop recurs on the falling sum. The loop of
-- `parse_options` runs on fuel, the length of its input: each round takes at least one byte. A
-- range or index out of range, and a failed `expect`, are the outcome `panic`. `Vec` and slices are
-- lists; the order of a `BTreeMap` is not observed by any method, so it is an association list.
-- `copy_from_slice` into a fixed array is written as concatenation where the ranges are
-- consecutive, and as a splice in `build_message`.
--
-- A method of `NetworkInterface` takes the host, that is the interface with the frames sent and the
-- count of random numbers drawn, and gives its result with the new host, or `none` when it panics.
-- The virtio driver and the random numbers are the parameter `Env`; that the driver takes the frames
-- it is given is a named hypothesis, since `send_frame` unwraps its answer. What is printed is left
-- out. The loops over frames, packets and regions are structural; `find_contiguous_pages` counts
-- down the frames that are left. An index outside the bitmap is `none`, as is the panic of
-- `PhysAddr::new` above 52 bits; addresses are otherwise unbounded naturals.
--
-- The cipher `ChaCha20Rng`, the entropy sources, the ports, what a future does when it is polled and
-- whether the terminal takes a text are parameters. A buffer that is only cleared is left out. The
-- loop of `run_ready_tasks` has a bound on its rounds, the queued wake-ups and those still to come.
-- `TIMERS` is a list in the order of its keys; a waker is the id of the task that it wakes. Clocks
-- and counters wrap around at 64 bits. `readline` takes the bytes of its stream as a list, and waits
-- when they run out; an index or a subtraction out of range is its outcome `panicked`.
--
-- `AtomicWaker` and the processor's interrupt flag are not code of the repository: the waker is a
-- parameter with its documented behaviour, and a device interrupts only while interrupts are
-- enabled, which its handler's return enables again. There is one processor. The guards of
-- `InterruptMutex` are dropped newest first, and nothing else changes the interrupt flag. The two
-- streams have the same code and are one model over any item; the queue exists from the start.
--
-- Not modelled: the drivers, the descriptor tables, interrupt controllers, the calibration of the
-- timer, the probe for the entropy device and how ACPI finds its tables, whose code is mostly access to
-- hardware or calls of other crates; and the `Display` of `MacAddress`.
pub mod Common
pub mod Net
pub mod Kernel
