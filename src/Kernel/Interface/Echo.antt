-- ===== src/Kernel/Interface/Echo.antt =====
-- `NetworkInterface::handle_icmp`: an echo request is answered, and nothing can make it panic.
use conc_os.Common.{
  ℕ, ◌+◌, ◌/◌, ◌%◌, ◌≤◌, ◌<◌, ◌^◌, ◌≡◌, ◌≢◌, refl, ◌∙◌, List, [], ◌∷◌, Option, none, some, Result,
  ok, err, panic, true, Bool-cases, inl, inr, ◌⊎◌, arith, length, ◌!=◌, set, lt→ltb, ltb,
  reject_if-total, ℕ_discrete, ne→==,
}
use conc_os.Common.Slices.{IsBytes}
use conc_os.Net.Addr.{Ipv4Addr}
use conc_os.Net.Checksum.{internet_checksum}
use conc_os.Net.Checksum.Verify.{total, word_sum, word_sum_bound, internet_checksum_accepts}
use conc_os.Net.Ipv4
use conc_os.Net.Ipv4.{Ipv4Packet, Ipv4Error, IpProtocol}
use conc_os.Kernel.Host.{Env, Host, write}
use conc_os.Kernel.Runs.{>>=_lem, Ends, KeepsAll, done-Keeps}
use conc_os.Kernel.Interface.Traffic.{send_ipv4-Keeps}
use conc_os.Kernel.Interface.{handle_icmp, icmp_request, echo, send_reply}

write_lem :
    (xs : List ℕ) (i v : ℕ) (h : Host) → i < length xs → write xs i v h ≡ some (set xs i v, h)
write_lem xs i v h small = rw (lt→ltb i (length xs) small)

-- The body of the reply to an echo request with code `b` and the bytes `rest` after the checksum.
abbrev zeroed : ℕ → List ℕ → List ℕ
zeroed b rest = 0 ∷ b ∷ 0 ∷ 0 ∷ rest

pub echo_body : ℕ → List ℕ → List ℕ
echo_body b rest =
    let check = internet_checksum (zeroed b rest ∷ []) in
    0 ∷ b ∷ (check / 256 % 256) ∷ (check % 256) ∷ rest

-- Whether a message is an echo request.
is_echo : (a b : ℕ) → ((a ≡ 8) × (b ≡ 0)) ⊎ ((a ≢ 8) ⊎ (b ≢ 0))
is_echo a b = elim (ℕ_discrete a 8) [
  | no other ↦ inr (inl other)
  | yes kind ↦ elim (ℕ_discrete b 0) [ no other ↦ inr (inr other) | yes code ↦ inl (kind, code) ]
]

total_fits : (xs : List ℕ) → IsBytes xs → length xs ≤ 65535 → total (xs ∷ []) < 2 ^ 31
unfolding total
total_fits xs v small = omega (arith, word_sum_bound xs v)

pub new_total :
    (payload : List ℕ) (source dest : Ipv4Addr) (id : ℕ) (protocol : IpProtocol)
    → Ipv4.new payload source dest id protocol ≢ panic
unfolding Ipv4.new
new_total payload source dest id protocol =
    reject_if-total (ltb 65535 (length payload + 20)) Ipv4.length_out_of_range _ (λ z. cc)

module _ (env : Env) where
  echo_lem :
      (src : Ipv4Addr) (p : Ipv4Packet) (a b c d : ℕ) (rest : List ℕ) (h : Host)
      → p.payload ≡ a ∷ b ∷ c ∷ d ∷ rest
      → echo env (some src) p h
        ≡ send_reply env (Ipv4.new (echo_body b rest) src p.source p.id Ipv4.icmp) h
  unfolding echo echo_body
  echo_lem src p a b c d rest h e =
      let clear = zeroed b rest in
      let check = internet_checksum (clear ∷ []) in
      let hi = check / 256 % 256 in
      let lo = check % 256 in
      let filled = 0 ∷ b ∷ hi ∷ 0 ∷ rest in
      rw e (
        >>=_lem (write (a ∷ b ∷ c ∷ d ∷ rest) 0 0) _ h (0 ∷ b ∷ c ∷ d ∷ rest) h
          (write_lem (a ∷ b ∷ c ∷ d ∷ rest) 0 0 h (omega arith))
        ∙ >>=_lem (write (0 ∷ b ∷ c ∷ d ∷ rest) 2 0) _ h (0 ∷ b ∷ 0 ∷ d ∷ rest) h
            (write_lem (0 ∷ b ∷ c ∷ d ∷ rest) 2 0 h (omega arith))
        ∙ >>=_lem (write (0 ∷ b ∷ 0 ∷ d ∷ rest) 3 0) _ h clear h
            (write_lem (0 ∷ b ∷ 0 ∷ d ∷ rest) 3 0 h (omega arith))
        ∙ >>=_lem (write clear 2 hi) _ h filled h (write_lem clear 2 hi h (omega arith))
        ∙ >>=_lem (write filled 3 lo) _ h (echo_body b rest) h
            (write_lem filled 3 lo h (omega arith)))

  icmp_request_other :
      (a b : ℕ) (rest : List ℕ) (p : Ipv4Packet) (h : Host)
      → (a ≢ 8) ⊎ (b ≢ 0)
      → icmp_request env (a ∷ b ∷ rest) p h ≡ some (tt, h)
  unfolding icmp_request
  icmp_request_other a b rest p h (inl e) = rw (ne→== a 8 e)
  icmp_request_other a b rest p h (inr e) = ground (arith, ne→== b 0 e)

  icmp_request-echo :
      (a b : ℕ) (rest : List ℕ) (p : Ipv4Packet) (h : Host)
      → (a ≡ 8) × (b ≡ 0)
      → icmp_request env (a ∷ b ∷ rest) p h ≡ echo env h.interface.ipv4 p h
  unfolding icmp_request
  icmp_request-echo a b rest p h e = rw (e.0, e.1)

  module _ (takes : (frame : List ℕ) → env.takes frame ≡ true) where
    send_reply-Keeps :
        (r : Result Ipv4Error Ipv4Packet) (h : Host)
        → r ≢ panic
        → Ends (send_reply env r h) (KeepsAll h)
    unfolding send_reply
    send_reply-Keeps (ok reply) h fine = send_ipv4-Keeps env takes reply.dest reply h
    send_reply-Keeps (err e) h fine = done-Keeps h
    send_reply-Keeps panic h fine = absurd (fine refl)

    echo-some-Keeps :
        (src : Ipv4Addr) (p : Ipv4Packet) (a b c d : ℕ) (rest : List ℕ) (h : Host)
        → p.payload ≡ a ∷ b ∷ c ∷ d ∷ rest
        → Ends (echo env (some src) p h) (KeepsAll h)
    echo-some-Keeps src p a b c d rest h e = rw (echo_lem src p a b c d rest h e) (
        send_reply-Keeps (Ipv4.new (echo_body b rest) src p.source p.id Ipv4.icmp) h
          (new_total (echo_body b rest) src p.source p.id Ipv4.icmp))

    echo-Keeps :
        (o : Option Ipv4Addr) (p : Ipv4Packet) (a b c d : ℕ) (rest : List ℕ) (h : Host)
        → p.payload ≡ a ∷ b ∷ c ∷ d ∷ rest
        → Ends (echo env o p h) (KeepsAll h)
    unfolding echo
    echo-Keeps none p a b c d rest h e = done-Keeps h
    echo-Keeps (some src) p a b c d rest h e = echo-some-Keeps src p a b c d rest h e

    icmp_request-Keeps :
        (payload : List ℕ) (p : Ipv4Packet) (h : Host)
        → p.payload ≡ payload
        → IsBytes payload
        → total (payload ∷ []) < 2 ^ 32
        → internet_checksum (payload ∷ []) ≡ 0
        → Ends (icmp_request env payload p h) (KeepsAll h)
    unfolding icmp_request total word_sum
    icmp_request-Keeps [] p h e v fits good =
        absurd (omega (arith, (internet_checksum_accepts ([] ∷ []) fits).0 good))
    icmp_request-Keeps (a ∷ []) p h e v fits good =
        absurd (omega (arith, (internet_checksum_accepts ((a ∷ []) ∷ []) fits).0 good))
    icmp_request-Keeps (a ∷ b ∷ []) p h e v fits good = elim (is_echo a b) [
      | inr other ↦ rw (icmp_request_other a b [] p h other) (done-Keeps h)
      | inl same ↦
          absurd (omega (arith, (internet_checksum_accepts ((a ∷ b ∷ []) ∷ []) fits).0 good, same))
    ]
    icmp_request-Keeps (a ∷ b ∷ c ∷ []) p h e v fits good = elim (is_echo a b) [
      | inr other ↦ rw (icmp_request_other a b (c ∷ []) p h other) (done-Keeps h)
      | inl same ↦
          absurd
            (omega (arith, (internet_checksum_accepts ((a ∷ b ∷ c ∷ []) ∷ []) fits).0 good, same))
    ]
    icmp_request-Keeps (a ∷ b ∷ c ∷ d ∷ rest) p h e v fits good = elim (is_echo a b) [
      | inr other ↦ rw (icmp_request_other a b (c ∷ d ∷ rest) p h other) (done-Keeps h)
      | inl same ↦
          rw (icmp_request-echo a b (c ∷ d ∷ rest) p h same)
            (echo-Keeps h.interface.ipv4 p a b c d rest h e)
    ]

    pub handle_icmp-Keeps :
        (p : Ipv4Packet) (h : Host)
        → IsBytes p.payload
        → length p.payload ≤ 65535
        → Ends (handle_icmp env p h) (KeepsAll h)
    unfolding handle_icmp
    handle_icmp-Keeps p h v small = elim (Bool-cases (internet_checksum (p.payload ∷ []) != 0)) [
      | inl bad ↦ rw bad (done-Keeps h)
      | inr good ↦ rw good (
          icmp_request-Keeps p.payload p h refl v (omega (arith, total_fits p.payload v small))
            (ground arith))
    ]
