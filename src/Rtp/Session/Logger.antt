-- ===== src/Rtp/Session/Logger.antt =====
-- media_stream.go: the logger of a media stream, what it counts and the lines that it logs.
pub mod Lines
pub mod Whole
use sipgox.Prelude.{
  Option, none, some, Bool, true, ltb, ℕ, ◌+◌, ◌≡◌, refl, List, [], ◌∷◌, ◌++◌, map, ◌==◌,
  if◌then◌else◌, length, All, arith,
}
use sipgox.Outcome.{Outcome, ok, err, panic, diverges, GoError, net_closed}
use sipgox.Rtp.{Bytes, Packet, RtpCodec}
use sipgox.Rtp.Reader.Stream.{IsPlain, IsFaithful}
use sipgox.Rtp.Session.{read_rtp}

-- `packetsCount`, `payloadSizeTotal`, and `payloadTypeCount`, a map from a type to its count.
pub record Summary : Type 0 where
  pub packets : ℕ
  pub payload_total : ℕ
  pub type_counts : List (ℕ × ℕ)

-- `payloadTypeCount[p.PayloadType]++`.
count_type : ℕ → List (ℕ × ℕ) → List (ℕ × ℕ)
count_type t [] = (t, 1) ∷ []
count_type t ((u, n) ∷ counts) =
    let rest = count_type t counts in if u == t then (u, n + 1) ∷ counts else (u, n) ∷ rest

unfoldable pub counted : Summary → Packet → Summary
unfolding count_type
counted s p = record {
  packets = s.packets + 1;
  payload_total = s.payload_total + length p.payload;
  type_counts = count_type p.payload_type s.type_counts;
}

-- A connection that was closed is no error.
pub closed_or : GoError → Outcome (Unit {0})
closed_or net_closed = ok tt
closed_or e = err e

-- The lines that are logged of the packets; a read's time is in nanoseconds.
pub data LogLine : Type 0 where
  talking_started : LogLine
  packet_logged : Packet → LogLine
  summary_logged : Summary → LogLine

-- The counts, `lastRTPTime`, which is the zero time before the first packet, and `lastSummaryTime`.
pub record Logging : Type 0 where
  pub summary : Summary
  pub last_rtp : Option ℕ
  pub last_summary : ℕ

-- `now.Sub(lastRTPTime) > 1*time.Second`.
pub talks : Option ℕ → ℕ → Bool
talks none now = true
talks (some last) now = ltb (last + 1_000_000_000) now

-- `now.Add(-3 * time.Second).After(lastSummaryTime)`.
pub is_summary_due : ℕ → ℕ → Bool
is_summary_due last now = ltb (last + 3_000_000_000) now

-- One packet: the summary is logged before it is counted.
unfoldable pub took_packet : Logging → ℕ → Packet → Logging
unfolding is_summary_due
took_packet s now p = record {
  summary = counted s.summary p;
  last_rtp = some now;
  last_summary = if is_summary_due s.last_summary now then now else s.last_summary;
}

unfoldable pub packet_lines : Logging → ℕ → Packet → List LogLine
unfolding talks is_summary_due
packet_lines s now p =
    (if talks s.last_rtp now then talking_started ∷ [] else [])
    ++ (packet_logged p
        ∷ (if is_summary_due s.last_summary now then summary_logged s.summary ∷ [] else []))

-- The variables at the end, the lines, and the result.
abbrev pub Log : Type 0
Log = Logging × List LogLine × Outcome (Unit {0})

unfoldable pub also_logged : List LogLine → Log → Log
also_logged lines (s, more, r) = (s, lines ++ more, r)

unfoldable pub logged : Logging → (Logging → Log) → ℕ → Outcome Packet → Log
unfolding closed_or took_packet packet_lines also_logged
logged s go now (ok p) = also_logged (packet_lines s now p) (go (took_packet s now p))
logged s go now (err e) = (s, [], closed_or e)
logged s go now panic = (s, [], panic)
logged s go now diverges = (s, [], diverges)

-- The loop of `MediaStreamLogger`, over the reads of the connection and their times; behind the last it waits for
-- ever.
unfoldable pub log_stream : RtpCodec → List (Outcome Bytes × ℕ) → Logging → Log
unfolding logged read_rtp
log_stream codec [] s = (s, [], diverges)
log_stream codec ((received, now) ∷ reads) s =
    logged s (λ s. log_stream codec reads s) now (read_rtp codec received)

-- What is counted under a type.
abbrev pub count_of : ℕ → List (ℕ × ℕ) → ℕ
count_of t [] = 0
count_of t ((u, n) ∷ counts) = if u == t then n else count_of t counts

-- How many packets have the type, and their bytes.
abbrev pub of_type : ℕ → List Packet → ℕ
of_type t [] = 0
of_type t (p ∷ ps) = (if p.payload_type == t then 1 else 0) + of_type t ps

abbrev pub total_payload : List Packet → ℕ
total_payload [] = 0
total_payload (p ∷ ps) = length p.payload + total_payload ps

count_of-count_type :
    (t u : ℕ) (counts : List (ℕ × ℕ))
    → count_of t (count_type u counts) ≡ (if u == t then 1 else 0) + count_of t counts
unfolding count_type
count_of-count_type t u [] = ground arith
count_of-count_type t u ((v, n) ∷ counts) = ground (arith, count_of-count_type t u counts)

-- The counts of what was read, on top of those before.
pub record Counts (before : Summary) (ps : List Packet) (after : Summary) : Type 0 where
  pub packets_are : after.packets ≡ before.packets + length ps
  pub payload_is : after.payload_total ≡ before.payload_total + total_payload ps
  pub types_are :
      (t : ℕ) → count_of t after.type_counts ≡ of_type t ps + count_of t before.type_counts

counted-Counts :
    (s after : Summary) (p : Packet) (ps : List Packet)
    → Counts (counted s p) ps after
    → Counts s (p ∷ ps) after
unfolding counted
counted-Counts s after p ps c = record {
  packets_are = omega (arith, c.packets_are);
  payload_is = omega (arith, c.payload_is);
  types_are = λ t. omega (arith, c.types_are t, count_of-count_type t p.payload_type s.type_counts);
}

-- Reads of packets at their times.
abbrev pub arrivals : RtpCodec → List (Packet × ℕ) → List (Outcome Bytes × ℕ)
arrivals codec [] = []
arrivals codec ((p, now) ∷ ps) = (codec.marshal p, now) ∷ arrivals codec ps

abbrev pub packets_of : List (Packet × ℕ) → List Packet
packets_of [] = []
packets_of ((p, now) ∷ ps) = p ∷ packets_of ps

-- With a codec that is faithful on plain packets, the logger of a stream of plain packets that ends by a
-- failing read has counted every packet, every byte of payload and, under each type, every packet of the type,
-- whenever the packets came; it returns the error, or none where the connection was closed.
pub log_stream-Counts :
    (codec : RtpCodec) (ps : List (Packet × ℕ)) (e : GoError) (at : ℕ)
    (later : List (Outcome Bytes × ℕ)) (s : Logging)
    → IsFaithful codec
    → All IsPlain (packets_of ps)
    → let (after, _, result) = log_stream codec (arrivals codec ps ++ (err e, at) ∷ later) s in
      Counts s.summary (packets_of ps) after.summary × (result ≡ closed_or e)
unfolding log_stream logged read_rtp took_packet also_logged
log_stream-Counts codec [] e at later s faithful plain = (
  record { packets_are = omega arith; payload_is = omega arith; types_are = λ t. omega arith },
  refl,
)
log_stream-Counts codec ((p, now) ∷ ps) e at later s faithful plain =
    let (counts, result) =
      log_stream-Counts codec ps e at later (took_packet s now p) faithful plain.1 in
    rw (faithful.marshals p plain.0, faithful.unmarshals p plain.0)
      (counted-Counts s.summary _ p (packets_of ps) counts, result)
