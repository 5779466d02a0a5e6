-- ===== src/Net/Dhcp/Cut.antt =====
-- Cutting a message of at least the fixed length into its fields (net/src/dhcp.rs).
use conc_os.Common.{
  ℕ, ◌-◌, ◌≤◌, ◌≡◌, sym, List, ◌∷◌, arith, length, take, drop, length-take, length-drop,
  take-append-drop,
}
use conc_os.Net.Dhcp.Replies.{Fields, IsLayout, message}

module _ (op htype hlen hops : ℕ) (rest : List ℕ) where
  abbrev rest1 : List ℕ
  rest1 = drop 4 rest

  abbrev rest2 : List ℕ
  rest2 = drop 8 rest1

  abbrev rest3 : List ℕ
  rest3 = drop 4 rest2

  abbrev rest4 : List ℕ
  rest4 = drop 8 rest3

  abbrev rest5 : List ℕ
  rest5 = drop 16 rest4

  abbrev rest6 : List ℕ
  rest6 = drop 192 rest5

  pub fields : Fields
  fields = record {
    op = op;
    htype = htype;
    hlen = hlen;
    hops = hops;
    id = take 4 rest;
    middle = take 8 rest1;
    yiaddr = take 4 rest2;
    servers = take 8 rest3;
    chaddr = take 16 rest4;
    names = take 192 rest5;
    cookie = take 4 rest6;
    options = drop 4 rest6;
  }

  fields-IsLayout : 236 ≤ length rest → IsLayout fields
  unfolding fields
  fields-IsLayout h =
      let l1 : length rest1 ≡ length rest - 4 = length-drop 4 rest in
      let l2 : length rest2 ≡ length rest1 - 8 = length-drop 8 rest1 in
      let l3 : length rest3 ≡ length rest2 - 4 = length-drop 4 rest2 in
      let l4 : length rest4 ≡ length rest3 - 8 = length-drop 8 rest3 in
      let l5 : length rest5 ≡ length rest4 - 16 = length-drop 16 rest4 in
      let l6 : length rest6 ≡ length rest5 - 192 = length-drop 192 rest5 in
      record {
        id_size = length-take 4 rest (omega arith);
        middle_size = length-take 8 rest1 (omega arith);
        yiaddr_size = length-take 4 rest2 (omega arith);
        servers_size = length-take 8 rest3 (omega arith);
        chaddr_size = length-take 16 rest4 (omega arith);
        names_size = length-take 192 rest5 (omega arith);
        cookie_size = length-take 4 rest6 (omega arith);
      }

  message-fields : message fields ≡ op ∷ htype ∷ hlen ∷ hops ∷ rest
  unfolding fields
  message-fields = rw (
    take-append-drop 4 rest6,
    take-append-drop 192 rest5,
    take-append-drop 16 rest4,
    take-append-drop 8 rest3,
    take-append-drop 4 rest2,
    take-append-drop 8 rest1,
    take-append-drop 4 rest,
  )

-- Any message of at least the fixed length has fields of their sizes.
pub cut : (msg : List ℕ) → 240 ≤ length msg → (f : Fields) × IsLayout f × (msg ≡ message f)
cut (op ∷ htype ∷ hlen ∷ hops ∷ rest) h = (
  fields op htype hlen hops rest,
  fields-IsLayout op htype hlen hops rest (omega arith),
  sym (message-fields op htype hlen hops rest),
)
cut msg h = absurd (omega arith)
