-- ===== src/Rtp/Session/Logger/Whole.antt =====
-- media_stream.go: `MediaStreamLogger` as a whole, with its goroutine for RTCP and the session that it closes.
use sipgox.Prelude.{
  take_whole, ◌≤◌, ℕ, zero, suc, ◌≡◌, ◌≢◌, refl, sym, ◌∙◌, ap, none, some, List, [], ◌∷◌, ◌++◌, map,
  take, drop, length, replicate, inr, All, arith, length-append, length-take, length-drop,
}
use Prim.Native.Nat.{min}
use mathlib.Core.Path.{subst}
use sipgox.Outcome.{Outcome, ok, err, panic, diverges, GoError, net_closed}
use sipgox.MediaSession.{UdpAddr, Conn, ConnField, conn, MediaSession}
use sipgox.Ports.{Sockets, PortRange, new_media_session, close_session}
use sipgox.Ports.Pair.{IsLawful}
use sipgox.Ports.Release.{Released, close_session-new_media_session}
use sipgox.Rtcp.Compound.{IsFaithful as IsFaithfulRtcp, compound, rtcp_unmarshal-compound}
use sipgox.Rtcp.{RtcpCodec, Slots, read_rtcp, rtcp_unmarshal}
use sipgox.Rtp.{Bytes, Packet, RtpCodec}
use sipgox.Rtp.Reader.Stream.{IsPlain, IsFaithful}
use sipgox.Rtp.Session.Logger.{
  Logging, Log, closed_or, log_stream, arrivals, packets_of, Counts, log_stream-Counts,
}

module _ (rtcp : RtcpCodec) where
  -- A read of RTCP: `pkts[:n]` is logged; an error ends the goroutine.
  logged_rtcp : (Slots rtcp → Slots rtcp) → Slots rtcp × Outcome ℕ → Slots rtcp
  logged_rtcp go (pkts, ok k) = take k pkts ++ go pkts
  logged_rtcp go (pkts, err e) = []
  logged_rtcp go (pkts, panic) = []
  logged_rtcp go (pkts, diverges) = []

  -- What the goroutine logs, over the reads of the connection. Its slots are used again for each read.
  unfoldable pub log_rtcp : ConnField → List (Outcome Bytes) → Slots rtcp → Slots rtcp
  unfolding logged_rtcp
  log_rtcp c [] pkts = []
  log_rtcp c (received ∷ reads) pkts =
      logged_rtcp (λ pkts. log_rtcp c reads pkts) (read_rtcp rtcp c received pkts)

module _ (n : Sockets) (rtcp : RtcpCodec) where
  -- The sockets, the log of RTP, and that of RTCP.
  abbrev pub Streamed : Type 0
  Streamed = n.World × Log × Slots rtcp

  -- The deferred `Close`, where the loop ends.
  closed_stream : n.World → MediaSession → Slots rtcp → Log → Streamed
  closed_stream w m reports (s, lines, diverges) = (w, (s, lines, diverges), reports)
  closed_stream w m reports (s, lines, r) = (close_session n w m, (s, lines, r), reports)

  -- `MediaStreamLogger`, started at a time.
  unfoldable pub media_stream_logger :
      RtpCodec
      → n.World
      → MediaSession
      → ℕ
      → List (Outcome Bytes × ℕ)
      → List (Outcome Bytes)
      → Streamed
  unfolding closed_stream log_rtcp
  media_stream_logger codec w m start reads rtcp_reads =
      closed_stream w m (log_rtcp rtcp m.rtcp_conn rtcp_reads (replicate 5 none)) (
        log_stream codec reads (record {
          summary = record { packets = 0; payload_total = 0; type_counts = [] };
          last_rtp = none;
          last_summary = start;
        }))

take_exact : {A : Type 0} (k : ℕ) (xs ys : List A) → length xs ≡ k → take k (xs ++ ys) ≡ xs
take_exact zero [] ys h = refl
take_exact zero (x ∷ xs) ys h = absurd (omega arith)
take_exact (suc k) [] ys h = absurd (omega arith)
take_exact (suc k) (x ∷ xs) ys h = ap (◌∷◌ x) (take_exact k xs ys (omega arith))

length-map : {A B : Type 0} (f : A → B) (xs : List A) → length (map f xs) ≡ length xs
length-map f [] = refl
length-map f (x ∷ xs) = ap suc (length-map f xs)

module _ (rtcp : RtcpCodec) (faithful : IsFaithfulRtcp rtcp) where
  abbrev pub first_five : List rtcp.Message → Slots rtcp
  first_five ms = map (λ (m : rtcp.Message). some m) (take 5 ms)

  -- The first five messages of each datagram.
  abbrev pub first_fives : List (List rtcp.Message) → Slots rtcp
  first_fives [] = []
  first_fives (ms ∷ mss) = first_five ms ++ first_fives mss

  abbrev pub datagrams : List (List rtcp.Message) → List (Outcome Bytes)
  datagrams [] = []
  datagrams (ms ∷ mss) = ok (compound rtcp faithful ms) ∷ datagrams mss

  length-first_five : (ms : List rtcp.Message) → length (first_five ms) ≡ min (length ms) 5
  length-first_five ms =
      omega (arith, length-map (λ (m : rtcp.Message). some m) (take 5 ms), length-take 5 ms)

  slots_kept :
      (ms : List rtcp.Message) (slots : Slots rtcp)
      → length slots ≡ 5
      → length (first_five ms ++ drop (length ms) slots) ≡ 5
  slots_kept ms slots h = omega (
    arith,
    length-append (first_five ms) (drop (length ms) slots),
    length-first_five ms,
    length-drop (length ms) slots,
  )

  read_rtcp-compound :
      (c : Conn) (ms : List rtcp.Message) (slots : Slots rtcp)
      → length slots ≡ 5
      → length (compound rtcp faithful ms) ≤ 1600
      → read_rtcp rtcp (conn c) (ok (compound rtcp faithful ms)) slots
        ≡ (first_five ms ++ drop (length ms) slots, ok (min (length ms) 5))
  unfolding read_rtcp
  read_rtcp-compound c ms slots h small =
      ap (λ bytes. rtcp_unmarshal rtcp bytes slots)
        (take_whole 1600 (compound rtcp faithful ms) small)
      ∙ rtcp_unmarshal-compound rtcp faithful ms slots
      ∙ ap
          (λ k. (
            map (λ (m : rtcp.Message). some m) (take k ms) ++ drop (length ms) slots,
            ok (min (length ms) k),
          ))
          h

  log_rtcp-datagrams :
      (c : Conn) (e : GoError) (later : List (Outcome Bytes)) (mss : List (List rtcp.Message))
      (slots : Slots rtcp)
      → length slots ≡ 5
      → All (λ ms. length (compound rtcp faithful ms) ≤ 1600) mss
      → log_rtcp rtcp (conn c) (datagrams mss ++ err e ∷ later) slots ≡ first_fives mss
  unfolding log_rtcp logged_rtcp read_rtcp
  log_rtcp-datagrams c e later [] slots h small = refl
  log_rtcp-datagrams c e later (ms ∷ mss) slots h small =
      let slots' = first_five ms ++ drop (length ms) slots in
      ap (logged_rtcp rtcp (λ pkts. log_rtcp rtcp (conn c) (datagrams mss ++ err e ∷ later) pkts))
        (read_rtcp-compound c ms slots h small.0)
      ∙ ap (λ l. l ++ log_rtcp rtcp (conn c) (datagrams mss ++ err e ∷ later) slots')
          (take_exact (min (length ms) 5) (first_five ms) (drop (length ms) slots)
            (length-first_five ms))
      ∙ ap (λ l. first_five ms ++ l)
          (log_rtcp-datagrams c e later mss slots' (slots_kept ms slots h) small.1)

closed_or_ends : (e : GoError) → closed_or e ≢ diverges
unfolding closed_or
closed_or_ends net_closed h = cc
closed_or_ends _ h = cc

closed_stream-ended :
    (n : Sockets) (rtcp : RtcpCodec) (w : n.World) (m : MediaSession) (reports : Slots rtcp)
    (x : Log)
    → x.2 ≢ diverges
    → closed_stream n rtcp w m reports x ≡ (close_session n w m, x, reports)
unfolding closed_stream
closed_stream-ended n rtcp w m reports (s, lines, ok tt) h = refl
closed_stream-ended n rtcp w m reports (s, lines, err x) h = refl
closed_stream-ended n rtcp w m reports (s, lines, panic) h = refl
closed_stream-ended n rtcp w m reports (s, lines, diverges) h = absurd (h refl)

-- The logger of a session that was opened on lawful sockets, whose RTP is a stream of plain packets up to a
-- failing read and whose RTCP is a series of datagrams of at most 1600 bytes up to one, both in formats that the codecs read
-- faithfully: it has counted every packet, every byte of payload and every packet of each type, it has logged of
-- each RTCP datagram the first five messages, in order, it returns the error of RTP, or none where the
-- connection was closed, and it leaves the sockets as they were before the session was opened.
pub media_stream_logger-whole :
    (n : Sockets) (lawful : IsLawful n) (rtcp : RtcpCodec) (faithful_rtcp : IsFaithfulRtcp rtcp)
    (codec : RtpCodec) (w w' : n.World) (r r' : PortRange) (laddr : UdpAddr) (m : MediaSession)
    (c : Conn) (start : ℕ) (ps : List (Packet × ℕ)) (mss : List (List rtcp.Message))
    (e e' : GoError) (at : ℕ) (later : List (Outcome Bytes × ℕ)) (later' : List (Outcome Bytes))
    → IsFaithful codec
    → new_media_session n w r laddr ≡ (w', r', inr m)
    → m.rtcp_conn ≡ conn c
    → All IsPlain (packets_of ps)
    → All (λ ms. length (compound rtcp faithful_rtcp ms) ≤ 1600) mss
    → let (after, (s, _, result), reports) =
        media_stream_logger n rtcp codec w' m start
          (arrivals codec ps ++ (err e, at) ∷ later)
          (datagrams rtcp faithful_rtcp mss ++ err e' ∷ later') in
      (after ≡ w)
      × Counts
          (record { packets = 0; payload_total = 0; type_counts = [] })
          (packets_of ps)
          s.summary
      × (result ≡ closed_or e)
      × (reports ≡ first_fives rtcp faithful_rtcp mss)
unfolding media_stream_logger
media_stream_logger-whole n lawful rtcp faithful_rtcp codec w w' r r' laddr m c start ps mss e e' at
      later later' faithful opened open_rtcp plain small =
    let fresh : Logging = record {
      summary = record { packets = 0; payload_total = 0; type_counts = [] };
      last_rtp = none;
      last_summary = start;
    } in
    let x = log_stream codec (arrivals codec ps ++ (err e, at) ∷ later) fresh in
    let (counts, result) = log_stream-Counts codec ps e at later fresh faithful plain in
    let reports =
      log_rtcp rtcp m.rtcp_conn (datagrams rtcp faithful_rtcp mss ++ err e' ∷ later')
        (replicate 5 none) in
    let ended : closed_stream n rtcp w' m reports x ≡ (close_session n w' m, x, reports) =
      closed_stream-ended n rtcp w' m reports x (λ h. closed_or_ends e (sym result ∙ h)) in
    let closed : close_session n w' m ≡ w =
      subst (λ x. Released n lawful w x) opened
        (close_session-new_media_session n lawful w r laddr) in
    let same_reports : reports ≡ first_fives rtcp faithful_rtcp mss =
      rw open_rtcp
        (log_rtcp-datagrams rtcp faithful_rtcp c e' later' mss (replicate 5 none) refl small) in
    rw ended (closed, counts, result, same_reports)
