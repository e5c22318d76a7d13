-- ===== src/Tests/Logging.antt =====
-- The logger of a stream of two packets, two seconds apart, and of two datagrams of reports.
use sipgox.Prelude.{ℕ, ◌+◌, ◌*◌, ◌≤◌, ◌≡◌, refl, none, List, [], ◌∷◌, ◌++◌, arith}
use sipgox.Prelude.Int.{pos}
use sipgox.Outcome.{err, net_closed}
use sipgox.Rtp.{Packet}
use sipgox.Rtp.Session.Logger.{Counts, closed_or, arrivals, packets_of}
use sipgox.Rtp.Session.Logger.Lines.{
  IsSteady, logged_packets, talk_count, summary_count, log_of, log_stream-lines,
}
use sipgox.Rtp.Session.Logger.Whole.{
  datagrams, first_fives, media_stream_logger, media_stream_logger-whole,
}
use sipgox.Tests.Descriptions.{host}
use sipgox.Tests.Listeners.{table, ten_ports, busy, table-IsLawful}
use sipgox.Tests.Calling.{opened, moved_on, opened_session}
use sipgox.Tests.Packets.{plain_codec, plain_codec-IsFaithful, plain_packet, plain_packet-IsPlain}
use sipgox.Tests.Reports.{reports, reports-IsFaithful}

abbrev two_packets : List (Packet × ℕ)
two_packets = (plain_packet, 5_000_000_000) ∷ (plain_packet, 7_000_000_000) ∷ []

log_stream-lines_example :
    let lines =
      (log_of plain_codec plain_codec-IsFaithful net_closed 8_000_000_000 [] two_packets (record {
        summary = record { packets = 0; payload_total = 0; type_counts = [] };
        last_rtp = none;
        last_summary = 1_000_000_000;
      })).1 in
    (logged_packets lines ≡ plain_packet ∷ plain_packet ∷ [])
    × (IsSteady 5_000_000_000 ((plain_packet, 7_000_000_000) ∷ []) → talk_count lines ≡ 1)
    × (1_000_000_000 + 3_000_000_000 * summary_count lines ≤ 7_000_000_000)
log_stream-lines_example =
    log_stream-lines plain_codec plain_codec-IsFaithful net_closed 8_000_000_000 [] plain_packet
      5_000_000_000 1_000_000_000 7_000_000_000 ((plain_packet, 7_000_000_000) ∷ [])
      (record { packets = 0; payload_total = 0; type_counts = [] })
      (plain_packet-IsPlain, (plain_packet-IsPlain, tt)) (omega arith)
      (omega arith, (omega arith, tt))

media_stream_logger-whole_example :
    let (after, (s, _, result), seen) =
      media_stream_logger table reports plain_codec
        (4003 ∷ 4002 ∷ busy)
        opened_session
        0
        (arrivals plain_codec two_packets ++ (err net_closed, 9_000_000_000) ∷ [])
        (datagrams reports reports-IsFaithful ((7 ∷ 8 ∷ []) ∷ (9 ∷ []) ∷ [])
          ++ err net_closed ∷ []) in
    (after ≡ busy)
    × Counts
        (record { packets = 0; payload_total = 0; type_counts = [] })
        (packets_of two_packets)
        s.summary
    × (result ≡ closed_or net_closed)
    × (seen ≡ first_fives reports reports-IsFaithful ((7 ∷ 8 ∷ []) ∷ (9 ∷ []) ∷ []))
media_stream_logger-whole_example =
    media_stream_logger-whole table table-IsLawful reports reports-IsFaithful plain_codec busy
      (4003 ∷ 4002 ∷ busy) ten_ports moved_on (record { ip = host; port = pos 0 }) opened_session
      (record { local_addr = record { ip = host; port = pos 4003 }; handle = 4003 }) 0 two_packets
      ((7 ∷ 8 ∷ []) ∷ (9 ∷ []) ∷ []) net_closed net_closed 9_000_000_000 [] []
      plain_codec-IsFaithful opened refl (plain_packet-IsPlain, (plain_packet-IsPlain, tt))
      (omega arith, (omega arith, tt))
