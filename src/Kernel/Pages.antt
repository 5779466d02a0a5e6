-- ===== src/Kernel/Pages.antt =====
-- kernel/src/allocation/ppa.rs: `PhysicalPageAllocator`, a bitmap with one bit for each page frame.
-- An index outside the bitmap is a panic, as `none`.
pub mod Frames
pub mod FirstFit
pub mod Alloc
use conc_os.Common.{
  ℕ, zero, suc, ◌+◌, ◌-◌, ◌*◌, ◌/◌, ◌%◌, ◌^◌, List, [], ◌∷◌, Bool, true, false, ◌&&◌, Option, none,
  some, bit_and, bit_or, max, leb, ◌==◌, if◌then◌else◌, set, get_elem?, replicate,
}
use conc_os.Common.{ltb}

abbrev pub page_size : ℕ
page_size = 4096

pub record Allocator : Type 0 where
  pub bitmap : List ℕ
  pub num_frames : ℕ

infixl 5 ◌>>=◌
abbrev pub ◌>>=◌ {ℓ κ} : {A : Type ℓ} {B : Type κ} → Option A → (A → Option B) → Option B
none >>= f = none
some a >>= f = f a

-- The byte that `set_bit` writes.
abbrev pub with_bit : ℕ → ℕ → Bool → ℕ
with_bit byte bit true = bit_or byte (2 ^ bit)
with_bit byte bit false = bit_and byte (255 - 2 ^ bit)

-- `set_bit`
unfoldable pub set_bit : Allocator → ℕ → Bool → Option Allocator
set_bit a frame used = do
  old ← get_elem? a.bitmap (frame / 8)
  some (record a { bitmap = set a.bitmap (frame / 8) (with_bit old (frame % 8) used) })

-- `is_free`
unfoldable pub is_free : Allocator → ℕ → Option Bool
is_free a page = do byte ← get_elem? a.bitmap (page / 8); some (bit_and byte (2 ^ (page % 8)) == 0)

-- A loop `for page in page..page + count { self.set_bit(page, used) }`
unfoldable pub set_bits : ℕ → Allocator → ℕ → Bool → Option Allocator
unfolding set_bit
set_bits zero a page used = some a
set_bits (suc count) a page used = do a' ← set_bit a page used; set_bits count a' (suc page) used

-- `mark_region_free` and `mark_region_used`
unfoldable pub mark_region : Allocator → ℕ → ℕ → Bool → Option Allocator
unfolding set_bits
mark_region a start end used =
    let first = start / page_size in
    let last = (end + (page_size - 1)) / page_size in set_bits (last - first) a first used

-- The loop of `find_contiguous_pages`, with `rounds` pages to go from `page`.
unfoldable pub find_loop : Allocator → ℕ → ℕ → ℕ → ℕ → ℕ → Option (Option ℕ)
unfolding is_free
find_loop a count zero page run_start run_length = some none
find_loop a count (suc rounds) page run_start run_length = do
  free ← is_free a page
  let start = if run_length == 0 then page else run_start
  let again = find_loop a count rounds (suc page) run_start 0
  let next = find_loop a count rounds (suc page) start (suc run_length)
  if free then (if suc run_length == count then some (some start) else next) else again

-- `find_contiguous_pages`
unfoldable pub find_contiguous_pages : Allocator → ℕ → Option (Option ℕ)
unfolding find_loop
find_contiguous_pages a count =
    if count == 0 then some none else find_loop a count a.num_frames 0 0 0

-- `PhysAddr::new` panics above 52 bits.
abbrev pub phys_addr : ℕ → Option ℕ
phys_addr addr = if ltb addr (2 ^ 52) then some addr else none

-- `alloc_contiguous_pages`, by what is found
abbrev alloc_at : Allocator → ℕ → Option ℕ → Option (Option ℕ × Allocator)
unfolding set_bits
alloc_at a count none = some (none, a)
alloc_at a count (some start) = do
  a' ← set_bits count a start true
  addr ← phys_addr (start * 4096)
  some (some addr, a')

unfoldable pub alloc_contiguous_pages : Allocator → ℕ → Option (Option ℕ × Allocator)
unfolding find_contiguous_pages alloc_at
alloc_contiguous_pages a count = do found ← find_contiguous_pages a count; alloc_at a count found

-- `dealloc_contiguous_pages`
unfoldable pub dealloc_contiguous_pages : Allocator → ℕ → ℕ → Option Allocator
unfolding set_bits
dealloc_contiguous_pages a paddr count = set_bits count a (paddr / 4096) false

-- An entry of the boot loader's memory map, with whether it is usable.
pub record Region : Type 0 where
  pub start_addr : ℕ
  pub end_addr : ℕ
  pub usable : Bool

abbrev highest : List Region → Option ℕ
highest [] = none
highest (r ∷ []) = some r.end_addr
highest (r ∷ rest) = elim (highest rest) [
  | none ↦ some r.end_addr
  | some m ↦ some (max r.end_addr m)
]

abbrev find_region : ℕ → List Region → Option Region
find_region size [] = none
find_region size (r ∷ rest) =
    if r.usable && leb size ((r.end_addr + 2 ^ 64 - r.start_addr) % 2 ^ 64)
    then some r
    else find_region size rest

unfoldable pub free_regions : List Region → Allocator → Option Allocator
unfolding mark_region
free_regions [] a = some a
free_regions (r ∷ rest) a =
    (if r.usable then mark_region a r.start_addr r.end_addr false else some a) >>= free_regions rest

abbrev div_ceil : ℕ → ℕ → ℕ
div_ceil n d = (n + (d - 1)) / d

-- `PhysicalPageAllocator::new`
unfoldable pub new : List Region → Option Allocator
unfolding free_regions mark_region
new memory_map = do
  max_phys ← highest memory_map
  let num_frames = div_ceil max_phys page_size
  let bitmap_bytes = div_ceil num_frames 8
  let bitmap_pages = div_ceil bitmap_bytes page_size
  region ← find_region (bitmap_pages * page_size) memory_map
  bitmap_phys ← phys_addr region.start_addr
  a ←
      free_regions memory_map
        (record { bitmap = replicate bitmap_bytes 0xff; num_frames = num_frames })
  mark_region a bitmap_phys (bitmap_phys + bitmap_pages * page_size) true
