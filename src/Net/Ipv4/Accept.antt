-- ===== src/Net/Ipv4/Accept.antt =====
-- The parser on a byte string of the right shape.
use conc_os.Common.{
  ℕ, ◌+◌, ◌*◌, ◌/◌, ◌%◌, ◌^◌, ◌<◌, ◌≤◌, ◌≡◌, refl, List, [], ◌∷◌, ◌++◌, bit_and, arith, ok, ◌!=◌,
  length, le→ltb, length-append, append_assoc,
}
use conc_os.Common.Bits.{and_mask}
use conc_os.Common.Slices.{range, range_part, range_rest}
use conc_os.Net.Checksum.{internet_checksum}
use conc_os.Net.Ipv4.{from_packet, read_fields, Ipv4Packet, protocol_from, Ipv4Error}
use conc_os.Common.{◌∙◌}

module _ (b0 b1 b2 b3 b4 b5 b6 b7 b8 b9 b10 b11 b12 b13 b14 b15 b16 b17 b18 b19 : ℕ) where
  abbrev pub fixed : List ℕ → List ℕ
  fixed tail =
      b0 ∷ b1 ∷ b2 ∷ b3 ∷ b4 ∷ b5 ∷ b6 ∷ b7 ∷ b8 ∷ b9 ∷ b10 ∷ b11 ∷ b12 ∷ b13 ∷ b14 ∷ b15 ∷ b16
      ∷ b17 ∷ b18 ∷ b19 ∷ tail

  abbrev pub parsed : List ℕ → List ℕ → Ipv4Packet
  parsed options payload = record {
    version_ihl = b0;
    dscp_ecn = b1;
    total_length = b2 * 256 + b3;
    id = b4 * 256 + b5;
    frag_offset = (b6 * 256 + b7) % 2 ^ 13;
    dont_fragment = bit_and ((b6 * 256 + b7) / 2 ^ 13) 0b010 != 0;
    more_fragments = bit_and ((b6 * 256 + b7) / 2 ^ 13) 0b001 != 0;
    ttl = b8;
    protocol = protocol_from b9;
    checksum = b10 * 256 + b11;
    source = record { o0 = b12; o1 = b13; o2 = b14; o3 = b15 };
    dest = record { o0 = b16; o1 = b17; o2 = b18; o3 = b19 };
    options = options;
    payload = payload;
  }

  pub read_fields_accepts :
      (options payload : List ℕ) (header_len : ℕ)
      → header_len ≡ 20 + length options
      → b2 * 256 + b3 < 2 ^ 16
      → bit_and ((b6 * 256 + b7) / 2 ^ 13) 0b100 ≡ 0
      → internet_checksum (fixed options ∷ []) ≡ 0
      → read_fields b0 b1 (b2 * 256 + b3) header_len (fixed (options ++ payload))
        ≡ ok (parsed options payload)
  unfolding read_fields
  read_fields_accepts options payload header_len e small evil check =
      let header : range {E = Ipv4Error} (fixed (options ++ payload)) 0 header_len
          ≡ ok (fixed options) =
        range_part [] (fixed options) payload 0 header_len refl (omega arith) in
      let middle : range {E = Ipv4Error} (fixed (options ++ payload)) 20 header_len ≡ ok options =
        range_part (fixed []) options payload 20 header_len refl (omega arith) in
      let last : range {E = Ipv4Error} (fixed (options ++ payload)) header_len
            (length (fixed (options ++ payload)))
          ≡ ok payload =
        range_rest (fixed options) payload header_len (length (fixed (options ++ payload)))
          (omega arith) (omega (arith, length-append options payload)) in
      rw (evil, header, check, middle, last) (ground (arith, and_mask 13 (b6 * 256 + b7)))

  -- The parser once the version, the header length and the total length have passed.
  pub lengths_pass :
      (options payload rest : List ℕ)
      → b2 * 256 + b3 < 2 ^ 16
      → b0 / 16 % 16 ≡ 4
      → b0 % 16 * 4 ≡ 20 + length options
      → b2 * 256 + b3 ≡ 20 + length options + length payload
      → from_packet (fixed (options ++ (payload ++ rest)))
        ≡ read_fields b0 b1 (b2 * 256 + b3) (20 + length options) (fixed (options ++ payload))
  unfolding from_packet
  lengths_pass options payload rest small version words lengths =
      let cut : range {E = Ipv4Error} (fixed (options ++ (payload ++ rest))) 0 (b2 * 256 + b3)
          ≡ ok (fixed (options ++ payload)) =
        rw (← append_assoc options payload rest) (
          range_part [] (fixed (options ++ payload)) rest 0 (b2 * 256 + b3) refl
            (omega (arith, length-append options payload))) in
      let nibble : bit_and (b0 / 2 ^ 4) 0xf ≡ 4 = omega (arith, and_mask 4 (b0 / 16)) in
      let times : bit_and b0 0xf * 4 % 2 ^ 8 ≡ 20 + length options = omega (arith, and_mask 4 b0) in
      let whole = length (fixed (options ++ (payload ++ rest))) in
      let room : 20 + length options + length payload ≤ whole =
        omega (arith, length-append options (payload ++ rest), length-append payload rest) in
      rw (
        le→ltb whole 20 (omega arith),
        nibble,
        le→ltb (bit_and b0 0xf) 5 (omega (arith, and_mask 4 b0)),
        times,
        le→ltb whole (20 + length options) (omega (arith, room)),
        le→ltb whole (b2 * 256 + b3) (omega (arith, room)),
        le→ltb (b2 * 256 + b3) (20 + length options) (omega arith),
        cut,
      )

  pub from_packet_accepts :
      (options payload rest : List ℕ)
      → b2 * 256 + b3 < 2 ^ 16
      → b0 / 16 % 16 ≡ 4
      → b0 % 16 * 4 ≡ 20 + length options
      → b2 * 256 + b3 ≡ 20 + length options + length payload
      → bit_and ((b6 * 256 + b7) / 2 ^ 13) 0b100 ≡ 0
      → internet_checksum (fixed options ∷ []) ≡ 0
      → from_packet (fixed (options ++ (payload ++ rest))) ≡ ok (parsed options payload)
  from_packet_accepts options payload rest small version words lengths evil check =
      lengths_pass options payload rest small version words lengths
      ∙ read_fields_accepts options payload (20 + length options) refl small evil check
