-- ===== src/Net/Addr.antt =====
-- `MacAddress` of net/src/ethernet.rs, and the standard library's `Ipv4Addr` as its four octets.
use conc_os.Common.{ℕ, ◌<◌, ◌≡◌, List, [], ◌∷◌, Bool, true, ◌&&◌, ◌==◌, arith, Result, ok, panic}
use conc_os.Common.Map.{Eq}

-- `addr: [u8; 6]`, byte by byte.
pub record MacAddress : Type 0 where
  pub a0 : ℕ
  pub a1 : ℕ
  pub a2 : ℕ
  pub a3 : ℕ
  pub a4 : ℕ
  pub a5 : ℕ

abbrev pub broadcast : MacAddress
broadcast = record { a0 = 255; a1 = 255; a2 = 255; a3 = 255; a4 = 255; a5 = 255 }

abbrev pub zero_mac : MacAddress
zero_mac = record { a0 = 0; a1 = 0; a2 = 0; a3 = 0; a4 = 0; a5 = 0 }

abbrev pub mac_bytes : MacAddress → List ℕ
mac_bytes m = m.a0 ∷ m.a1 ∷ m.a2 ∷ m.a3 ∷ m.a4 ∷ m.a5 ∷ []

-- `MacAddress::new(slice.try_into().expect(..))`
abbrev pub mac_from_slice {κ} : {E : Type κ} → List ℕ → Result E MacAddress
mac_from_slice (b0 ∷ b1 ∷ b2 ∷ b3 ∷ b4 ∷ b5 ∷ []) =
    ok (record { a0 = b0; a1 = b1; a2 = b2; a3 = b3; a4 = b4; a5 = b5 })
mac_from_slice _ = panic

-- The derived `==`.
abbrev pub mac_eq : MacAddress → MacAddress → Bool
mac_eq m n =
    m.a0 == n.a0 && m.a1 == n.a1 && m.a2 == n.a2 && m.a3 == n.a3 && m.a4 == n.a4 && m.a5 == n.a5

pub record IsMac (m : MacAddress) : Type 0 where
  pub b0 : m.a0 < 256
  pub b1 : m.a1 < 256
  pub b2 : m.a2 < 256
  pub b3 : m.a3 < 256
  pub b4 : m.a4 < 256
  pub b5 : m.a5 < 256

pub record Ipv4Addr : Type 0 where
  pub o0 : ℕ
  pub o1 : ℕ
  pub o2 : ℕ
  pub o3 : ℕ

abbrev pub octets : Ipv4Addr → List ℕ
octets a = a.o0 ∷ a.o1 ∷ a.o2 ∷ a.o3 ∷ []

-- `Ipv4Addr::from_octets(*slice.as_array().expect(..))`
abbrev pub addr_from_slice {κ} : {E : Type κ} → List ℕ → Result E Ipv4Addr
addr_from_slice (b0 ∷ b1 ∷ b2 ∷ b3 ∷ []) = ok (record { o0 = b0; o1 = b1; o2 = b2; o3 = b3 })
addr_from_slice _ = panic

abbrev pub addr_eq : Ipv4Addr → Ipv4Addr → Bool
addr_eq a b = a.o0 == b.o0 && a.o1 == b.o1 && a.o2 == b.o2 && a.o3 == b.o3

abbrev pub broadcast_addr : Ipv4Addr
broadcast_addr = record { o0 = 255; o1 = 255; o2 = 255; o3 = 255 }

abbrev pub unspecified : Ipv4Addr
unspecified = record { o0 = 0; o1 = 0; o2 = 0; o3 = 0 }

pub record IsAddr (a : Ipv4Addr) : Type 0 where
  pub b0 : a.o0 < 256
  pub b1 : a.o1 < 256
  pub b2 : a.o2 < 256
  pub b3 : a.o3 < 256

pub addr_eq_sound : (a b : Ipv4Addr) → addr_eq a b ≡ true → a ≡ b
addr_eq_sound a b h = ground arith

pub mac_eq_sound : (a b : MacAddress) → mac_eq a b ≡ true → a ≡ b
mac_eq_sound a b h = ground arith

pub addr_eq_refl : (a : Ipv4Addr) → addr_eq a a ≡ true
addr_eq_refl a = ground arith

-- `Ipv4Addr` as a key of a map.
instance abbrev pub addr_key : Eq Ipv4Addr
addr_key = record { beq = addr_eq; beq_sound = addr_eq_sound; beq_refl = addr_eq_refl }
