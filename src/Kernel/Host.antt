-- ===== src/Kernel/Host.antt =====
-- The network interface of kernel/src/network/handler.rs with what it acts on: the frames that its
-- driver has taken, and the random numbers that it has drawn. A panic ends a run, as `none`.
use conc_os.Common.{
  ℕ, suc, ◌-◌, ◌%◌, List, [], ◌∷◌, ◌++◌, Bool, Option, none, some, ltb, if◌then◌else◌, length, set,
  get_elem?, replicate,
}
use conc_os.Common.Slices.{u16_to_be_bytes}
use conc_os.Net.Addr.{MacAddress, Ipv4Addr, mac_bytes}
use conc_os.Net.Dhcp.{DhcpBinding}
use conc_os.Net.Arp.Cache.{ArpCache}
use conc_os.Net.Ethernet.{EtherType, ethertype_number}

pub data DhcpState : Type 0 where
  idle : DhcpState
  selecting : ℕ → DhcpState
  requesting : ℕ → DhcpBinding → DhcpState

-- `DHCPState::xid`
abbrev pub exchange_id : DhcpState → Option ℕ
exchange_id idle = none
exchange_id (selecting xid) = some xid
exchange_id (requesting xid offer) = some xid

pub record NetworkInterface : Type 0 where
  pub mac : MacAddress
  pub ipv4 : Option Ipv4Addr
  pub gateway : Option Ipv4Addr
  pub subnet_mask : Option Ipv4Addr
  pub arp : ArpCache
  pub dhcp : DhcpState

-- What the interface calls and this repository does not implement: whether the virtio driver takes
-- a frame, and what the n-th drawing of a random number gives, `none` being the error of the
-- virtio device.
pub record Env : Type 0 where
  pub takes : List ℕ → Bool
  pub rand : ℕ → Option ℕ

pub record Host : Type 0 where
  pub interface : NetworkInterface
  pub sent : List (List ℕ)
  pub draws : ℕ

abbrev pub M : Type 0 → Type 0
M A = Host → Option (A × Host)

-- A panic ends the whole run.
infixl 5 ◌>>=◌
abbrev pub ◌>>=◌ : {X Y : Type 0} → M X → (X → M Y) → M Y
◌>>=◌ first next host = elim (first host) [ none ↦ none | some (x, host') ↦ next x host' ]

abbrev pub return : {A : Type 0} → A → M A
return a h = some (a, h)

abbrev pub done : M (Unit {0})
done h = some (tt, h)

infixl 5 ◌>>◌
abbrev pub ◌>>◌ : {X : Type 0} → M (Unit {0}) → M X → M X
◌>>◌ first next = first >>= λ u. next

abbrev pub crash : {A : Type 0} → M A
crash h = none

abbrev pub self : M NetworkInterface
self h = some (h.interface, h)

abbrev pub set_arp : ArpCache → M (Unit {0})
set_arp c h = some (tt, record h { interface = record h.interface { arp = c } })

abbrev pub set_dhcp : DhcpState → M (Unit {0})
set_dhcp s h = some (tt, record h { interface = record h.interface { dhcp = s } })

-- `data[i]`, and `data[i] = v`.
abbrev pub at : List ℕ → ℕ → M ℕ
at xs i h = elim (get_elem? xs i) [ none ↦ none | some x ↦ some (x, h) ]

abbrev pub write : List ℕ → ℕ → ℕ → M (List ℕ)
write xs i v h = if ltb i (length xs) then some (set xs i v, h) else none

-- The frame that `send_frame` builds: the Ethernet header, the payload, and zeros up to 60 bytes.
abbrev pub ethernet_header : MacAddress → MacAddress → EtherType → List ℕ
unfolding ethertype_number
ethernet_header dst src ethertype =
    mac_bytes dst ++ (mac_bytes src ++ u16_to_be_bytes (ethertype_number ethertype))

unfoldable pub ethernet_frame : MacAddress → MacAddress → EtherType → List ℕ → List ℕ
unfolding ethernet_header
ethernet_frame dst src ethertype payload =
    let frame = ethernet_header dst src ethertype ++ payload in
    frame ++ replicate (60 - length frame) 0

module _ (env : Env) where
  -- `NetworkInterface::send_frame`, with the `unwrap` of the driver's answer
  unfoldable pub send_frame : MacAddress → EtherType → List ℕ → M (Unit {0})
  send_frame dst ethertype payload h =
      let frame = ethernet_frame dst h.interface.mac ethertype payload in
      if env.takes frame then some (tt, record h { sent = h.sent ++ (frame ∷ []) }) else none

  -- `u32::from_rand()` and `u16::from_rand()`, by the bound on what they give
  unfoldable pub from_rand : ℕ → M (Option ℕ)
  from_rand bound h = some (
    elim (env.rand h.draws) [ none ↦ none | some v ↦ some (v % bound) ],
    record h { draws = suc h.draws },
  )
