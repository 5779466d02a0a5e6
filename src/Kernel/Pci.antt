-- ===== src/Kernel/Pci.antt =====
-- kernel/src/pci.rs, and the configuration accesses of kernel/src/acpi_handling.rs: addresses of
-- configuration space, and reading and writing it through two ports.
pub mod Address
use conc_os.Common.{
  ℕ, ◌+◌, ◌*◌, ◌/◌, ◌%◌, ◌^◌, Option, none, some, bit_or, bit_and, ◌==◌, if◌then◌else◌,
}

-- What the ports of a machine do: a read of some bytes gives a value, and each access may change
-- the machine.
pub record Ports (S : Type 0) : Type 0 where
  pub read : ℕ → ℕ → S → ℕ × S
  pub write : ℕ → ℕ → ℕ → S → S

-- `pci_config_address`
unfoldable pub pci_config_address : ℕ → ℕ → ℕ → ℕ → ℕ
pci_config_address bus device function offset =
    bit_or
      (bit_or (bit_or (bit_or (1 * 2 ^ 31) (bus * 2 ^ 16)) (device * 2 ^ 11)) (function * 2 ^ 8))
      (bit_and offset 0xfc)

-- The getters of the `PciAddress` of the crate `acpi`.
pub record PciAddress : Type 0 where
  pub segment : ℕ
  pub bus : ℕ
  pub device : ℕ
  pub function : ℕ

-- `pci_address_to_u32`
unfoldable pub pci_address_to_u32 : PciAddress → ℕ → ℕ
pci_address_to_u32 a offset =
    bit_or
      (bit_or (bit_or (bit_or 0x80000000 (a.bus * 2 ^ 16)) (a.device * 2 ^ 11))
        (a.function * 2 ^ 8))
      (bit_and offset 0xfc)

-- What the crate `virtio-drivers` is told of a function.
pub record DeviceFunctionInfo : Type 0 where
  pub vendor_id : ℕ
  pub device_id : ℕ
  pub class : ℕ
  pub subclass : ℕ
  pub prog_if : ℕ
  pub revision : ℕ
  pub header_type : ℕ

module _ {S : Type 0} (ports : Ports S) where
  -- `pci_read_u32` and `pci_write_u32`
  unfoldable pub pci_read_u32 : ℕ → ℕ → ℕ → ℕ → S → ℕ × S
  unfolding pci_config_address
  pci_read_u32 bus device function offset s =
      ports.read 4 0xcfc (ports.write 4 0xcf8 (pci_config_address bus device function offset) s)

  unfoldable pub pci_write_u32 : ℕ → ℕ → ℕ → ℕ → ℕ → S → S
  unfolding pci_config_address
  pci_write_u32 bus device function offset value s =
      ports.write 4 0xcfc value
        (ports.write 4 0xcf8 (pci_config_address bus device function offset) s)

  -- `virtio_type_at`, with `virtio_device_type` as a parameter
  unfoldable pub virtio_type_at :
      {T : Type 0} → (DeviceFunctionInfo → Option T) → ℕ → ℕ → ℕ → S → Option T × S
  unfolding pci_read_u32
  virtio_type_at virtio_device_type bus device function s =
      let (device_vendor, s1) = pci_read_u32 bus device function 0 s in
      let (class_revision, s2) = pci_read_u32 bus device function 8 s1 in
      let (bist, s3) = pci_read_u32 bus device function 12 s2 in
      (
        virtio_device_type (record {
          vendor_id = device_vendor % 2 ^ 16;
          device_id = device_vendor / 2 ^ 16 % 2 ^ 16;
          class = class_revision / 2 ^ 24 % 256;
          subclass = class_revision / 2 ^ 16 % 256;
          prog_if = class_revision / 2 ^ 8 % 256;
          revision = class_revision % 256;
          header_type = bit_and (bist / 2 ^ 16 % 256) 0x7f;
        }),
        s3,
      )

  -- `read_pci_u8`, `read_pci_u16` and `read_pci_u32` of the ACPI handler, by the count of bytes;
  -- `none` is the failed assertion on the segment.
  unfoldable pub read_pci : ℕ → PciAddress → ℕ → S → Option (ℕ × S)
  unfolding pci_address_to_u32
  read_pci bytes a offset s =
      if a.segment == 0
      then some (
          ports.read bytes (0xcfc + offset % 4)
            (ports.write 4 0xcf8 (pci_address_to_u32 a offset) s))
      else none

  -- `write_pci_u8`, `write_pci_u16` and `write_pci_u32`
  unfoldable pub write_pci : ℕ → PciAddress → ℕ → ℕ → S → Option S
  unfolding pci_address_to_u32
  write_pci bytes a offset value s =
      if a.segment == 0
      then some (
          ports.write bytes (0xcfc + offset % 4) value
            (ports.write 4 0xcf8 (pci_address_to_u32 a offset) s))
      else none
