-- ===== src/Kernel/Routes.antt =====
-- kernel/src/acpi_handling.rs: the routes of interrupts that `init_acpi` takes from the entries of
-- the MADT, and `isa_irq_to_gsi`. What the acpi crate parses is a list of entries; an
-- entry of another kind is one constructor. A look-up before `init_acpi`, which panics, is left out.
use conc_os.Common.{
  ℕ, ◌≡◌, refl, ap, List, [], ◌∷◌, ◌++◌, append-nil, append_assoc, sym, ◌∙◌, ◌==◌, if◌then◌else◌,
}

pub record IoApicInfo : Type 0 where
  pub id : ℕ
  pub phys_addr : ℕ
  pub gsi_base : ℕ

pub record Iso : Type 0 where
  pub isa_irq : ℕ
  pub gsi : ℕ
  pub flags : ℕ

-- The entries that `init_acpi` looks at, and the others.
pub data MadtEntry : Type 0 where
  io_apic : ℕ → ℕ → ℕ → MadtEntry
  interrupt_source_override : ℕ → ℕ → ℕ → MadtEntry
  other : MadtEntry

-- The two statics.
pub record Routes : Type 0 where
  pub io_apics : List IoApicInfo
  pub isos : List Iso

-- The body of the loop of `init_acpi`, and the loop.
take_entry : MadtEntry → Routes → Routes
take_entry (io_apic id address base) r = record r {
  io_apics = r.io_apics ++ (record { id = id; phys_addr = address; gsi_base = base } ∷ []);
}
take_entry (interrupt_source_override irq gsi flags) r = record r {
  isos = r.isos ++ (record { isa_irq = irq; gsi = gsi; flags = flags } ∷ []);
}
take_entry other r = r

unfoldable pub read_entries : List MadtEntry → Routes → Routes
unfolding take_entry
read_entries [] r = r
read_entries (entry ∷ entries) r = read_entries entries (take_entry entry r)

-- `init_acpi`, the first call: what the two statics hold after it.
unfoldable pub init_acpi : List MadtEntry → Routes
unfolding read_entries
init_acpi entries = read_entries entries (record { io_apics = []; isos = [] })

unfoldable pub isa_irq_to_gsi : List Iso → ℕ → ℕ
isa_irq_to_gsi [] irq = irq
isa_irq_to_gsi (iso ∷ isos) irq = if iso.isa_irq == irq then iso.gsi else isa_irq_to_gsi isos irq

-- The route of a line by the entries themselves: the first override of it counts.
unfoldable pub route : List MadtEntry → ℕ → ℕ
route [] irq = irq
route (interrupt_source_override line gsi flags ∷ entries) irq =
    if line == irq then gsi else route entries irq
route (io_apic id address base ∷ entries) irq = route entries irq
route (other ∷ entries) irq = route entries irq

-- The overrides among entries.
overrides : List MadtEntry → List Iso
overrides [] = []
overrides (interrupt_source_override line gsi flags ∷ entries) =
    record { isa_irq = line; gsi = gsi; flags = flags } ∷ overrides entries
overrides (io_apic id address base ∷ entries) = overrides entries
overrides (other ∷ entries) = overrides entries

read_entries-isos :
    (entries : List MadtEntry) (r : Routes)
    → (read_entries entries r).isos ≡ r.isos ++ overrides entries
unfolding read_entries take_entry overrides
read_entries-isos [] r = sym (append-nil r.isos)
read_entries-isos (interrupt_source_override line gsi flags ∷ entries) r =
    read_entries-isos entries (take_entry (interrupt_source_override line gsi flags) r)
    ∙ append_assoc r.isos (record { isa_irq = line; gsi = gsi; flags = flags } ∷ [])
        (overrides entries)
read_entries-isos (io_apic id address base ∷ entries) r =
    read_entries-isos entries (take_entry (io_apic id address base) r)
read_entries-isos (other ∷ entries) r = read_entries-isos entries r

overrides-route :
    (entries : List MadtEntry) (irq : ℕ)
    → isa_irq_to_gsi (overrides entries) irq ≡ route entries irq
unfolding isa_irq_to_gsi overrides route
overrides-route [] irq = refl
overrides-route (interrupt_source_override line gsi flags ∷ entries) irq =
    ap (λ n. if line == irq then gsi else n) (overrides-route entries irq)
overrides-route (io_apic id address base ∷ entries) irq = overrides-route entries irq
overrides-route (other ∷ entries) irq = overrides-route entries irq

-- After `init_acpi` a line is routed as the first entry of the table that overrides it says, and to
-- the interrupt of its own number if none does.
pub isa_irq_to_gsi-init_acpi :
    (entries : List MadtEntry) (irq : ℕ)
    → isa_irq_to_gsi (init_acpi entries).isos irq ≡ route entries irq
unfolding init_acpi
isa_irq_to_gsi-init_acpi entries irq =
    ap (λ isos. isa_irq_to_gsi isos irq)
      (read_entries-isos entries (record { io_apics = []; isos = [] }))
    ∙ overrides-route entries irq
