-- ===== src/Kernel/Runs.antt =====
-- Postconditions of the interface's handlers: a run ends, without a panic, in a state that is
-- related to the one it started from.
use conc_os.Common.{◌≡◌, refl, ◌∙◌, ◌++◌, List, [], ◌∷◌, ℕ, true, Option, some}
use conc_os.Net.Addr.{MacAddress}
use conc_os.Net.Ethernet.{EtherType}
use conc_os.Net.Arp.Cache.{ArpCache}
use conc_os.Net.Arp.Cache.Invariant.{IsCache}
use conc_os.Kernel.Host.{Env, Host, M, ◌>>=◌, done, set_arp, send_frame, from_rand, ethernet_frame}

pub data Ends {A : Type 0} (r : Option (A × Host)) (P : A → Host → Type 0) : Type 0 where
  ends : (a : A) (h : Host) → r ≡ some (a, h) → P a h → Ends r P

-- A step of a run whose result is known.
pub >>=_lem :
    {A B : Type 0} (m : M A) (f : A → M B) (h : Host) (a : A) (h' : Host)
    → m h ≡ some (a, h')
    → (m >>= f) h ≡ f a h'
>>=_lem m f h a h' e = rw (e, ◌>>=◌)

pub Ends-bind :
    {A B : Type 0} {P : A → Host → Type 0} {Q : B → Host → Type 0} (m : M A) (f : A → M B)
    (h : Host)
    → Ends (m h) P
    → ((a : A) (h' : Host) → P a h' → Ends (f a h') Q)
    → Ends ((m >>= f) h) Q
Ends-bind m f h (ends a h' run p) k = elim (k a h' p) [
  | ends b h'' run' q ↦ ends b h'' (rw (run, ◌>>=◌) run') q
]

pub Ends-step :
    {A B : Type 0} {Q : B → Host → Type 0} (m : M A) (f : A → M B) (h : Host) (a : A) (h' : Host)
    → m h ≡ some (a, h')
    → Ends (f a h') Q
    → Ends ((m >>= f) h) Q
Ends-step m f h a h' e q = rw (>>=_lem m f h a h' e) q

pub Ends-map :
    {A : Type 0} {P Q : A → Host → Type 0} {r : Option (A × Host)}
    → Ends r P
    → ((a : A) (h : Host) → P a h → Q a h)
    → Ends r Q
Ends-map (ends a h run p) k = ends a h run (k a h p)

-- A part of a handler that leaves the configuration alone, and the cache within its bounds.
pub record Keeps (h h' : Host) : Type 0 where
  pub same_mac : h'.interface.mac ≡ h.interface.mac
  pub same_ipv4 : h'.interface.ipv4 ≡ h.interface.ipv4
  pub same_gateway : h'.interface.gateway ≡ h.interface.gateway
  pub same_mask : h'.interface.subnet_mask ≡ h.interface.subnet_mask
  pub same_dhcp : h'.interface.dhcp ≡ h.interface.dhcp
  pub cache : IsCache h.interface.arp → IsCache h'.interface.arp

abbrev pub KeepsAll : {A : Type 0} → Host → A → Host → Type 0
KeepsAll h a h' = Keeps h h'

pub Keeps-refl : (h : Host) → Keeps h h
Keeps-refl h = record {
  same_mac = refl;
  same_ipv4 = refl;
  same_gateway = refl;
  same_mask = refl;
  same_dhcp = refl;
  cache = λ v. v;
}

pub Keeps-trans : {a b c : Host} → Keeps a b → Keeps b c → Keeps a c
Keeps-trans p q = record {
  same_mac = q.same_mac ∙ p.same_mac;
  same_ipv4 = q.same_ipv4 ∙ p.same_ipv4;
  same_gateway = q.same_gateway ∙ p.same_gateway;
  same_mask = q.same_mask ∙ p.same_mask;
  same_dhcp = q.same_dhcp ∙ p.same_dhcp;
  cache = λ v. q.cache (p.cache v);
}

-- Two parts that keep it, one after the other.
pub Keeps-bind :
    {A B : Type 0} (m : M A) (f : A → M B) (h : Host)
    → Ends (m h) (KeepsAll h)
    → ((a : A) (h' : Host) → Keeps h h' → Ends (f a h') (KeepsAll h'))
    → Ends ((m >>= f) h) (KeepsAll h)
Keeps-bind m f h p k =
    Ends-bind m f h p (λ a h' kept. Ends-map (k a h' kept) (λ b h'' kept'. Keeps-trans kept kept'))

pub set_arp-Keeps :
    (c : ArpCache) (h : Host)
    → (IsCache h.interface.arp → IsCache c)
    → Ends (set_arp c h) (KeepsAll h)
set_arp-Keeps c h v = ends tt _ refl (record {
  same_mac = refl;
  same_ipv4 = refl;
  same_gateway = refl;
  same_mask = refl;
  same_dhcp = refl;
  cache = v;
})

pub done-Keeps : (h : Host) → Ends (done h) (KeepsAll h)
done-Keeps h = ends tt h refl (Keeps-refl h)

module _ (env : Env) where
  pub from_rand-Keeps : (bound : ℕ) (h : Host) → Ends (from_rand env bound h) (KeepsAll h)
  unfolding from_rand
  from_rand-Keeps bound h = ends _ _ refl (record {
    same_mac = refl;
    same_ipv4 = refl;
    same_gateway = refl;
    same_mask = refl;
    same_dhcp = refl;
    cache = λ v. v;
  })

  -- When the driver takes a frame, it is the last one that was sent, and nothing else changes.
  pub send_frame_lem :
      (dst : MacAddress) (ethertype : EtherType) (payload : List ℕ) (h : Host)
      → env.takes (ethernet_frame dst h.interface.mac ethertype payload) ≡ true
      → send_frame env dst ethertype payload h
        ≡ some (
          tt,
          record h { sent = h.sent ++ (ethernet_frame dst h.interface.mac ethertype payload ∷ []) },
        )
  unfolding send_frame
  send_frame_lem dst ethertype payload h taken = rw taken

  pub send_frame-Keeps :
      (dst : MacAddress) (ethertype : EtherType) (payload : List ℕ) (h : Host)
      → ((frame : List ℕ) → env.takes frame ≡ true)
      → Ends (send_frame env dst ethertype payload h) (KeepsAll h)
  send_frame-Keeps dst ethertype payload h all =
      ends tt _ (send_frame_lem dst ethertype payload h (all _)) (record {
        same_mac = refl;
        same_ipv4 = refl;
        same_gateway = refl;
        same_mask = refl;
        same_dhcp = refl;
        cache = λ v. v;
      })
