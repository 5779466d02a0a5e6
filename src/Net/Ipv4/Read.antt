-- ===== src/Net/Ipv4/Read.antt =====
-- Every outcome of the IPv4 parser: an error, or a packet with the shape that it was read from.
use conc_os.Common.{
  ℕ, ◌+◌, ◌-◌, ◌*◌, ◌/◌, ◌%◌, ◌^◌, ◌<◌, ◌≤◌, ◌≡◌, refl, ◌⊎◌, inl, inr, List, [], ◌∷◌, ◌++◌, bit_and,
  arith, ◌||◌, ltb, Result, ok, err, ◌!=◌, length, take, drop, Bool-cases, le→ltb, ap, ◌∙◌,
}
use conc_os.Common.Bits.{and_mask}
use conc_os.Common.Slices.{range, range_part, split_at}
use conc_os.Net.Checksum.{internet_checksum}
use conc_os.Net.Ipv4.{
  from_packet, read_fields, Ipv4Packet, Ipv4Error, version_mismatch, ihl_mismatch,
  header_length_mismatch, total_length_mismatch, evil_bit_set, incorrect_checksum,
}
use conc_os.Net.Ipv4.Accept.{fixed, parsed, read_fields_accepts, lengths_pass}

-- A byte string with its first twenty bytes laid open.
pub data Opened : List ℕ → Type 0 where
  opened :
      (b0 b1 b2 b3 b4 b5 b6 b7 b8 b9 b10 b11 b12 b13 b14 b15 b16 b17 b18 b19 : ℕ) (tail : List ℕ)
      → Opened (fixed b0 b1 b2 b3 b4 b5 b6 b7 b8 b9 b10 b11 b12 b13 b14 b15 b16 b17 b18 b19 tail)

pub open_bytes : (bytes : List ℕ) → 20 ≤ length bytes → Opened bytes
open_bytes
      (b0 ∷ b1 ∷ b2 ∷ b3 ∷ b4 ∷ b5 ∷ b6 ∷ b7 ∷ b8 ∷ b9 ∷ b10 ∷ b11 ∷ b12 ∷ b13 ∷ b14 ∷ b15 ∷ b16
        ∷ b17 ∷ b18 ∷ b19 ∷ tail)
      h =
    opened b0 b1 b2 b3 b4 b5 b6 b7 b8 b9 b10 b11 b12 b13 b14 b15 b16 b17 b18 b19 tail
open_bytes _ h = absurd (omega arith)

-- What the parser has established when it accepts: the byte string in its parts, and each test.
module _ (b0 b1 b2 b3 b4 b5 b6 b7 b8 b9 b10 b11 b12 b13 b14 b15 b16 b17 b18 b19 : ℕ) where
  abbrev at : List ℕ → List ℕ
  at = fixed b0 b1 b2 b3 b4 b5 b6 b7 b8 b9 b10 b11 b12 b13 b14 b15 b16 b17 b18 b19

  abbrev read : List ℕ → List ℕ → Ipv4Packet
  read = parsed b0 b1 b2 b3 b4 b5 b6 b7 b8 b9 b10 b11 b12 b13 b14 b15 b16 b17 b18 b19

  pub record IsAccepted (tail options payload rest : List ℕ) : Type 0 where
    pub parts : tail ≡ options ++ (payload ++ rest)
    pub version : b0 / 16 % 16 ≡ 4
    pub words : b0 % 16 * 4 ≡ 20 + length options
    pub lengths : b2 * 256 + b3 ≡ 20 + length options + length payload
    pub evil : bit_and ((b6 * 256 + b7) / 2 ^ 13) 0b100 ≡ 0
    pub check : internet_checksum (at options ∷ []) ≡ 0

  pub data Outcome (tail : List ℕ) (r : Result Ipv4Error Ipv4Packet) : Type 0 where
    rejects : (e : Ipv4Error) → r ≡ err e → Outcome tail r
    accepts :
        (options payload rest : List ℕ)
        → r ≡ ok (read options payload)
        → IsAccepted tail options payload rest
        → Outcome tail r

  -- The two tests that come after the lengths are settled.
  read_fields_cases :
      (options payload : List ℕ)
      → b2 * 256 + b3 < 2 ^ 16
      → ((e : Ipv4Error) × (read_fields b0 b1
              (b2 * 256 + b3)
              (20 + length options)
              (at (options ++ payload))
            ≡ err e))
        ⊎ ((bit_and ((b6 * 256 + b7) / 2 ^ 13) 0b100 ≡ 0)
            × (internet_checksum (at options ∷ []) ≡ 0)
            × (read_fields b0 b1 (b2 * 256 + b3) (20 + length options) (at (options ++ payload))
                ≡ ok (read options payload)))
  unfolding read_fields
  read_fields_cases options payload small =
      elim (Bool-cases (bit_and ((b6 * 256 + b7) / 2 ^ 13) 0b100 != 0)) [
        | inl evil ↦ inl (evil_bit_set, rw (evil))
        | inr good ↦ elim (Bool-cases (internet_checksum (at options ∷ []) != 0)) [
          | inl bad ↦ inl (
            incorrect_checksum,
            let header : range {E = Ipv4Error} (at (options ++ payload)) 0 (20 + length options)
                    ≡ ok (at options) =
                  range_part [] (at options) payload 0 (20 + length options) refl (omega arith) in
                rw (good, header, bad),
          )
          | inr fine ↦
              let sound : bit_and ((b6 * 256 + b7) / 2 ^ 13) 0b100 ≡ 0 = ground arith in
              let check : internet_checksum (at options ∷ []) ≡ 0 = ground arith in
              inr (
                sound,
                check,
                read_fields_accepts b0 b1 b2 b3 b4 b5 b6 b7 b8 b9 b10 b11 b12 b13 b14 b15 b16 b17
                    b18 b19 options payload (20 + length options) refl small sound check,
              )
        ]
      ]

  -- The lengths in parts, once every test on them has passed.
  lengths_settled :
      (tail : List ℕ)
      → b2 * 256 + b3 < 2 ^ 16
      → b0 / 16 % 16 ≡ 4
      → 20 ≤ b0 % 16 * 4
      → b0 % 16 * 4 ≤ b2 * 256 + b3
      → b2 * 256 + b3 ≤ 20 + length tail
      → Outcome tail (from_packet (at tail))
  lengths_settled tail small version minimum header fits =
      let n = b0 % 16 * 4 - 20 in
      let m = b2 * 256 + b3 - b0 % 16 * 4 in
      let (parts, options_length, payload_length) = split_at n m tail (omega arith) in
      let options = take n tail in
      let payload = take m (drop n tail) in
      let rest = drop m (drop n tail) in
      let words : b0 % 16 * 4 ≡ 20 + length options = omega arith in
      let lengths : b2 * 256 + b3 ≡ 20 + length options + length payload = omega arith in
      let run =
        ap (λ (t : List ℕ). from_packet (at t)) parts
        ∙ lengths_pass b0 b1 b2 b3 b4 b5 b6 b7 b8 b9 b10 b11 b12 b13 b14 b15 b16 b17 b18 b19 options
            payload rest small version words lengths in
      elim (read_fields_cases options payload small) [
        | inl (e, failed) ↦ rejects e (run ∙ failed)
        | inr (evil, check, done) ↦ accepts options payload rest (run ∙ done) (record {
          parts = parts;
          version = version;
          words = words;
          lengths = lengths;
          evil = evil;
          check = check;
        })
      ]

  -- The tests in the order of the source.
  pub opened_cases : (tail : List ℕ) → b2 * 256 + b3 < 2 ^ 16 → Outcome tail (from_packet (at tail))
  unfolding from_packet
  opened_cases tail small =
      let long = le→ltb (length (at tail)) 20 (omega arith) in
      let header = bit_and b0 0xf * 4 % 2 ^ 8 in
      elim (Bool-cases (bit_and (b0 / 2 ^ 4) 0xf != 4)) [
        | inl t ↦ rejects version_mismatch (rw (long, t))
        | inr t ↦ elim (Bool-cases (ltb (bit_and b0 0xf) 5)) [
          | inl u ↦ rejects ihl_mismatch (rw (long, t, u))
          | inr u ↦ elim (Bool-cases (ltb (length (at tail)) header)) [
            | inl v ↦ rejects header_length_mismatch (rw (long, t, u, v))
            | inr v ↦
                elim (Bool-cases
                  (ltb (length (at tail)) (b2 * 256 + b3) || ltb (b2 * 256 + b3) header)) [
                    | inl w ↦ rejects total_length_mismatch (rw (long, t, u, v, w))
                    | inr w ↦
                        let nibble = and_mask 4 (b0 / 16) in
                        let low = and_mask 4 b0 in
                        lengths_settled tail small (ground arith) (ground arith) (ground arith)
                          (ground arith)
                  ]
          ]
        ]
      ]
