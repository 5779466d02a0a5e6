-- ===== src/Kernel/Pci/Address.antt =====
-- Addresses of configuration space keep their fields apart, and the two ways to build them agree.
use conc_os.Common.{ℕ, ◌+◌, ◌*◌, ◌/◌, ◌%◌, ◌^◌, ◌<◌, ◌≡◌, ap, some, bit_or, bit_and, arith}
use conc_os.Common.Bits.{or_fields, and_mask, and_digit}
use conc_os.Kernel.Pci.{
  Ports, PciAddress, pci_config_address, pci_address_to_u32, pci_read_u32, read_pci,
}

aligned : (x : ℕ) → bit_and x 0xfc ≡ x / 4 % 64 * 4
aligned x = omega (arith, and_digit x 0xfc, and_digit (x / 2) 0x7e, and_mask 6 (x / 2 / 2))

address_sum :
    (bus device function offset : ℕ)
    → bus < 256
    → device < 32
    → function < 8
    → pci_config_address bus device function offset
      ≡ 2 ^ 31 + bus * 2 ^ 16 + device * 2 ^ 11 + function * 2 ^ 8 + offset / 4 % 64 * 4
unfolding pci_config_address
address_sum bus device function offset b d f =
    let low = aligned offset in
    let one = or_fields 31 1 (bus * 2 ^ 16) (omega arith) in
    let two = or_fields 16 (2 ^ 15 + bus) (device * 2 ^ 11) (omega arith) in
    let three = or_fields 11 ((2 ^ 15 + bus) * 32 + device) (function * 2 ^ 8) (omega arith) in
    let four =
      or_fields 8 (((2 ^ 15 + bus) * 32 + device) * 8 + function) (bit_and offset 0xfc)
        (omega (arith, low)) in
    let at16 : 1 * 2 ^ 31 + bus * 2 ^ 16 ≡ (2 ^ 15 + bus) * 2 ^ 16 = omega arith in
    let at11 : (2 ^ 15 + bus) * 2 ^ 16 + device * 2 ^ 11 ≡ ((2 ^ 15 + bus) * 32 + device) * 2 ^ 11 =
      omega arith in
    let at8 : ((2 ^ 15 + bus) * 32 + device) * 2 ^ 11 + function * 2 ^ 8
        ≡ (((2 ^ 15 + bus) * 32 + device) * 8 + function) * 2 ^ 8 =
      omega arith in
    rw (one, at16, two, at11, three, at8, four) (omega (arith, low))

-- The address of a register of an existing function is a 32-bit word with the enable bit set from
-- which the bus, the device, the function and the register, rounded down to a word, are read back.
pub pci_config_address-fields :
    (bus device function offset : ℕ)
    → bus < 256
    → device < 32
    → function < 8
    → offset < 256
    → (pci_config_address bus device function offset / 2 ^ 31 ≡ 1)
      × (pci_config_address bus device function offset / 2 ^ 16 % 256 ≡ bus)
      × (pci_config_address bus device function offset / 2 ^ 11 % 32 ≡ device)
      × (pci_config_address bus device function offset / 2 ^ 8 % 8 ≡ function)
      × (pci_config_address bus device function offset % 256 ≡ offset / 4 * 4)
pci_config_address-fields bus device function offset b d f o =
    omega (arith, address_sum bus device function offset b d f)

-- The ACPI handler and the PCI scan address the same register: for any function and any offset,
-- the handler's address is the scan's address for the low byte of the offset.
pub pci_address_to_u32-eq-pci_config_address :
    (a : PciAddress) (offset : ℕ)
    → pci_address_to_u32 a offset ≡ pci_config_address a.bus a.device a.function (offset % 256)
unfolding pci_address_to_u32 pci_config_address
pci_address_to_u32-eq-pci_config_address a offset =
    let same : bit_and offset 0xfc ≡ bit_and (offset % 256) 0xfc =
      omega (arith, aligned offset, aligned (offset % 256)) in
    ap
      (bit_or (
        bit_or (bit_or (bit_or 0x80000000 (a.bus * 2 ^ 16)) (a.device * 2 ^ 11))
          (a.function * 2 ^ 8)))
      same

-- On a machine whose data port gives the bytes of the selected word at its four addresses, a byte
-- that the ACPI handler reads is that byte of the word that the scan reads.
pub read_pci-byte :
    {S : Type 0} (ports : Ports S) (a : PciAddress) (offset : ℕ) (s : S)
    → ((k : ℕ) (t : S)
        → k < 4
        → ports.read 1 (0xcfc + k) t
          ≡ ((ports.read 4 0xcfc t).0 / 256 ^ k % 256, (ports.read 4 0xcfc t).1))
    → a.segment ≡ 0
    → read_pci ports 1 a offset s
      ≡ some (
        (pci_read_u32 ports a.bus a.device a.function (offset % 256) s).0
            / 256 ^ (offset % 4)
            % 256,
        (pci_read_u32 ports a.bus a.device a.function (offset % 256) s).1,
      )
unfolding read_pci pci_read_u32
read_pci-byte ports a offset s law e = rw (
  e,
  law (offset % 4) (ports.write 4 0xcf8 (pci_address_to_u32 a offset) s) (omega arith),
  pci_address_to_u32-eq-pci_config_address a offset,
)
