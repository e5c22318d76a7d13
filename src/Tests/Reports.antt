-- ===== src/Tests/Reports.antt =====
-- RTCP receiver reports without blocks, as RFC 3550 lays them out.
use sipgox.Prelude.{
  ℕ, ◌+◌, ◌*◌, ◌/◌, ◌%◌, ◌≡◌, refl, Option, none, some, List, [], ◌∷◌, ◌++◌, arith, length,
}
use sipgox.Prelude.Int.{pos}
use sipgox.Outcome.{Outcome, ok, err, short_buffer}
use sipgox.MediaSession.{Conn, conn}
use sipgox.Rtp.{Bytes}
use sipgox.Rtcp.{RtcpCodec, rtcp_unmarshal, read_rtcp, write_rtcps}
use sipgox.Rtcp.Compound.{IsFaithful, compound, rtcp_unmarshal-compound, read_rtcp-write_rtcps}

abbrev report_header : Bytes → Outcome (ℕ × ℕ)
report_header (a ∷ t ∷ l1 ∷ l0 ∷ rest) = ok (t, l1 * 256 + l0)
report_header _ = err short_buffer

abbrev report_source : Bytes → Outcome ℕ
report_source (a ∷ t ∷ l1 ∷ l0 ∷ s3 ∷ s2 ∷ s1 ∷ s0 ∷ []) =
    ok (s3 * 16777216 + (s2 * 65536 + (s1 * 256 + s0)))
report_source _ = err short_buffer

abbrev report_wire : ℕ → Bytes
report_wire n = 128 ∷ 201 ∷ 0 ∷ 1 ∷ n / 16777216 ∷ n / 65536 % 256 ∷ n / 256 % 256 ∷ n % 256 ∷ []

abbrev all_reports : List ℕ → Bytes
all_reports [] = []
all_reports (n ∷ ns) = report_wire n ++ all_reports ns

abbrev pub reports : RtcpCodec
reports = record {
  Message = ℕ;
  header_unmarshal = report_header;
  unmarshal = λ kind. report_source;
  marshal = λ n. ok (report_wire n);
  marshal_all = λ ns. ok (all_reports ns);
}

pub four_bytes :
    (n : ℕ)
    → n / 16777216 * 16777216 + (n / 65536 % 256 * 65536 + (n / 256 % 256 * 256 + n % 256)) ≡ n
four_bytes n = omega arith

abbrev pub reports-IsFaithful : IsFaithful reports
reports-IsFaithful = record {
  wire = report_wire;
  htype = λ n. 201;
  words = λ n. 1;
  words_field = λ n. omega arith;
  wire_length = λ n. refl;
  reads_header = λ n rest. refl;
  reads_message = λ n. rw (four_bytes n) refl;
}

abbrev two_reports : List ℕ
two_reports = 7 ∷ 70000 ∷ []

abbrev five_slots : List (Option ℕ)
five_slots = none ∷ none ∷ none ∷ none ∷ none ∷ []

rtcp_unmarshal-compound_example :
    rtcp_unmarshal reports (compound reports reports-IsFaithful two_reports) (none ∷ [])
    ≡ (some 7 ∷ [], ok 1)
rtcp_unmarshal-compound_example =
    rtcp_unmarshal-compound reports reports-IsFaithful two_reports (none ∷ [])

abbrev socket : Conn
socket = record { local_addr = record { ip = []; port = pos 4001 }; handle = 4001 }

read_rtcp-write_rtcps_example :
    (write_rtcps reports (λ sent. ok (length sent)) two_reports ≡ ok tt)
    × (read_rtcp reports (conn socket) (reports.marshal_all two_reports) five_slots
        ≡ (some 7 ∷ some 70000 ∷ none ∷ none ∷ none ∷ [], ok 2))
read_rtcp-write_rtcps_example =
    read_rtcp-write_rtcps reports reports-IsFaithful two_reports five_slots socket refl
      (omega arith) (omega arith)

one_read : (rtcp_unmarshal reports (report_wire 7) five_slots).1 ≡ ok 1
unfolding rtcp_unmarshal
one_read = refl
