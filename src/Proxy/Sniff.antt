-- ===== src/Proxy/Sniff.antt =====
-- The sniffing of a connection (src/lib/in/transparent_proxy.rs): it ends, and it loses nothing.
use mathlib.Core.Option
use mathlib.Core.List.{append_assoc}
use plug2proxy.Prelude.{
  ℕ, suc, ◌+◌, ◌≤◌, ◌<◌, ◌≡◌, refl, ap, ◌∙◌, subst, Bool, true, false, not, ◌&&◌, Bool-cases,
  Option-cases, Option, none, some, List, [], ◌∷◌, ◌++◌, arith, ltb, inl, inr, is_empty,
  if◌then◌else◌,
}
use plug2proxy.Net.{Text, SocketAddr}
use plug2proxy.Tunnel.ByteStream.{connect, accept, ok}
use plug2proxy.Tunnel.ByteStream.RoundTrip.{
  InRange, IsText, sent_address, sent_text, accept-connect,
}
use plug2proxy.Proxy.{
  TlsParser, Read, received, would_block, failed, Sniffed, sniffed, waiting, is_not_tls,
  extract_sni_hostname, sniff_loop, read_attempts_limit,
}

-- The bytes that reads give.
abbrev pub bytes_of : List Read → List ℕ
bytes_of [] = []
bytes_of (received bytes ∷ reads) = bytes ++ bytes_of reads
bytes_of (would_block ∷ reads) = bytes_of reads
bytes_of (failed ∷ reads) = bytes_of reads

-- How many reads find nothing yet.
abbrev pub blocked : List Read → ℕ
blocked [] = 0
blocked (received bytes ∷ reads) = blocked reads
blocked (would_block ∷ reads) = suc (blocked reads)
blocked (failed ∷ reads) = blocked reads

-- What was read and what is to come are all that the reads give.
abbrev Lossless : List ℕ → List Read → Sniffed → Type 0
Lossless before reads waiting = Unit
Lossless before reads (sniffed name buffer end rest) =
    buffer ++ bytes_of rest ≡ before ++ bytes_of reads

carried :
    (before bytes : List ℕ) (reads : List Read) (s : Sniffed)
    → Lossless (before ++ bytes) reads s
    → Lossless before (received bytes ∷ reads) s
carried before bytes reads waiting h = tt
carried before bytes reads (sniffed name buffer end rest) h =
    h ∙ append_assoc before bytes (bytes_of reads)

abbrev Ends : Sniffed → Type 0
Ends waiting = ⊥
Ends (sniffed name buffer end rest) = Unit

ended :
    (s : Sniffed)
    → Ends s
    → (name : Option Text) × (buffer : List ℕ) × (end : Bool) × (rest : List Read) × (s
        ≡ sniffed name buffer end rest)
ended waiting h = absurd h
ended (sniffed name buffer end rest) h = (name, buffer, end, rest, refl)

module _ (tls : TlsParser) where
  sniff_loop-Lossless :
      (determined : Bool) (attempts : ℕ) (buffer : List ℕ) (reads : List Read)
      → Lossless buffer reads (sniff_loop tls determined attempts buffer reads)
  unfolding sniff_loop
  sniff_loop-Lossless determined attempts buffer [] = tt
  sniff_loop-Lossless determined attempts buffer (received [] ∷ reads) = refl
  sniff_loop-Lossless determined attempts buffer (failed ∷ reads) = refl
  sniff_loop-Lossless determined attempts buffer (would_block ∷ reads) =
      elim (Bool-cases (not determined && ltb attempts read_attempts_limit)) [
        | inl e ↦ rw (e, sniff_loop) (sniff_loop-Lossless determined (attempts + 1) buffer reads)
        | inr e ↦ rw (e, sniff_loop) refl
      ]
  sniff_loop-Lossless true attempts buffer (received (b ∷ bytes) ∷ reads) =
      carried buffer (b ∷ bytes) reads _
        (sniff_loop-Lossless true attempts (buffer ++ b ∷ bytes) reads)
  sniff_loop-Lossless false attempts buffer (received (b ∷ bytes) ∷ reads) =
      let now : List ℕ = buffer ++ b ∷ bytes in
      let read = append_assoc buffer (b ∷ bytes) (bytes_of reads) in
      elim (Bool-cases (is_not_tls now)) [
        | inl e ↦ rw (e, sniff_loop) read
        | inr e ↦ elim (Option-cases (extract_sni_hostname tls now)) [
          | inr (hostname, q) ↦ rw (e, q, sniff_loop) read
          | inl q ↦
              rw (e, q, sniff_loop)
                (carried buffer (b ∷ bytes) reads _ (sniff_loop-Lossless false attempts now reads))
        ]
      ]

  -- The bytes that the loop has read, followed by those of the reads to come, are the bytes of all reads:
  -- sniffing loses, repeats and reorders nothing, however it ends.
  pub sniff_loop_lossless :
      (reads rest : List Read) (name : Option Text) (buffer : List ℕ) (end : Bool)
      → sniff_loop tls false 0 [] reads ≡ sniffed name buffer end rest
      → buffer ++ bytes_of rest ≡ bytes_of reads
  sniff_loop_lossless reads rest name buffer end h =
      subst (Lossless [] reads) h (sniff_loop-Lossless false 0 [] reads)

  sniff_loop-Ends :
      (determined : Bool) (attempts : ℕ) (buffer : List ℕ) (reads : List Read)
      → attempts ≤ read_attempts_limit
      → read_attempts_limit < attempts + blocked reads
      → Ends (sniff_loop tls determined attempts buffer reads)
  unfolding sniff_loop
  sniff_loop-Ends determined attempts buffer [] h k = absurd (omega arith)
  sniff_loop-Ends determined attempts buffer (received [] ∷ reads) h k = tt
  sniff_loop-Ends determined attempts buffer (failed ∷ reads) h k = tt
  sniff_loop-Ends determined attempts buffer (would_block ∷ reads) h k =
      elim (Bool-cases (not determined && ltb attempts read_attempts_limit)) [
        | inr e ↦ rw (e, sniff_loop) tt
        | inl e ↦
            rw (e, sniff_loop)
              (sniff_loop-Ends determined (attempts + 1) buffer reads (ground arith) (omega arith))
      ]
  sniff_loop-Ends true attempts buffer (received (b ∷ bytes) ∷ reads) h k =
      sniff_loop-Ends true attempts (buffer ++ b ∷ bytes) reads h k
  sniff_loop-Ends false attempts buffer (received (b ∷ bytes) ∷ reads) h k =
      let now : List ℕ = buffer ++ b ∷ bytes in
      elim (Bool-cases (is_not_tls now)) [
        | inl e ↦ rw (e, sniff_loop) tt
        | inr e ↦ elim (Option-cases (extract_sni_hostname tls now)) [
          | inr (hostname, q) ↦ rw (e, q, sniff_loop) tt
          | inl q ↦ rw (e, q, sniff_loop) (sniff_loop-Ends false attempts now reads h k)
        ]
      ]

  -- Sniffing ends by the sixth read that finds nothing yet, whatever the other reads give.
  pub sniff_loop_ends :
      (reads : List Read)
      → 5 < blocked reads
      → (name : Option Text) × (buffer : List ℕ) × (end : Bool) × (rest : List Read) × (sniff_loop
            tls false 0 [] reads
          ≡ sniffed name buffer end rest)
  sniff_loop_ends reads h =
      ended (sniff_loop tls false 0 [] reads)
        (sniff_loop-Ends false 0 [] reads (omega arith) (omega arith))

  -- Through a tunnel of byte streams OUT gets what the client sends, in order and from the first byte, though some of it
  -- was sniffed: what IN writes to the tunnel, followed by the bytes of the reads to come, is read by OUT
  -- as the destination followed by the bytes of all reads. The address is in range, and the name and the
  -- tag are UTF-8.
  pub accept-sniff_loop :
      (reads rest : List Read) (sniffed_name name tag : Option Text) (buffer bytes : List ℕ)
      (end opened head_written sniff_buffer_written : Bool) (address : SocketAddr)
      → sniff_loop tls false 0 [] reads ≡ sniffed sniffed_name buffer end rest
      → InRange address
      → IsText name
      → IsText tag
      → connect opened head_written sniff_buffer_written address name tag
          (if is_empty buffer then none else some buffer)
        ≡ ok bytes
      → accept (bytes ++ bytes_of rest)
        ≡ ok ((sent_address address, sent_text name, sent_text tag), bytes_of reads)
  accept-sniff_loop reads rest sniffed_name name tag buffer bytes end opened head_written
        sniff_buffer_written address h fits n t sent =
      accept-connect opened head_written sniff_buffer_written address name tag _ bytes
        (bytes_of rest) fits n t sent
      ∙ ap (λ payload. ok ((sent_address address, sent_text name, sent_text tag), payload))
          (written buffer ∙ sniff_loop_lossless reads rest sniffed_name buffer end h)
    where
      written :
          (buffer : List ℕ)
          → Option.get_or (if is_empty buffer then none else some buffer) [] ++ bytes_of rest
            ≡ buffer ++ bytes_of rest
      written [] = refl
      written (b ∷ buffer) = refl
