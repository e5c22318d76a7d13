-- ===== src/Tests/Streams.antt =====
-- Streams of packets from a writer to a reader.
use sipgox.Prelude.{◌≢◌, ℕ, ◌+◌, ◌%◌, ◌≤◌, ◌≡◌, refl, List, [], ◌∷◌, arith, length, All, map}
use sipgox.Outcome.{Outcome, ok}
use sipgox.Rtp.{Bytes}
use sipgox.Text.{Text, codes, eq_text}
use sipgox.Sdp.Media.{format_numeric}
use sipgox.Sequencer.{init_seq, new_rtp_sequencer}
use sipgox.Rtp.Reader.Stream.Start.{read_all-new_rtp_writer}
use sipgox.Rtp.Writer.{new_rtp_writer, update_clock_rate, RtpWriter, zero_packet}
use sipgox.Rtp.Reader.{RtpReader, new_rtp_reader}
use sipgox.Rtp.Reader.Stream.{IsSource, Follows, write_all, read_all}
use sipgox.Tests.Packets.{plain_codec, plain_codec-IsFaithful, length-wire}

abbrev writer : RtpWriter
writer = record {
  seq = record { seq_num = 65535; wrap_arround_count = 0; bad_seq = 65535 };
  payload_type = 8;
  ssrc = 77;
  sample_rate = 8000;
  clock_rate_timestamp = 160;
  next_timestamp = 0;
  last_packet = zero_packet;
  on_rtp = λ p. p;
}

writer-IsSource : IsSource writer
writer-IsSource = record {
  seq_words = record {
    seq_num_word = omega arith;
    wrap_word = omega arith;
    bad_seq_word = omega arith;
  };
  type_small = omega arith;
  source_word = omega arith;
  stamp_word = omega arith;
  callback = λ p. refl;
}

abbrev reader : RtpReader
reader = record {
  packet_header = zero_packet.header;
  on_rtp = λ p. p;
  payload_type = 8;
  seq = record { seq_num = 65535; wrap_arround_count = 0; bad_seq = 65535 };
  unread_payload = [];
  unread = 0;
  last_ssrc = 77;
}

reader-Follows : Follows writer reader
reader-Follows = record {
  same_type = refl;
  same_source = refl;
  same_number = refl;
  same_wraps = refl;
  nothing_unread = refl;
  read_callback = λ p. refl;
}

-- A connection that takes every byte.
abbrev takes_all : Bytes → Outcome ℕ
takes_all wire = ok (length wire)

abbrev two_payloads : List Bytes
two_payloads = (1 ∷ 2 ∷ 3 ∷ []) ∷ [] ∷ []

two_payloads_fit : All (λ b. 12 + length b ≤ 160) two_payloads
two_payloads_fit = (omega arith, (omega arith, tt))

abbrev alaw_formats : List Text
alaw_formats = codes "8" ∷ []

abbrev new_writer : RtpWriter
new_writer = record writer {
  seq = record { seq_num = 1000; wrap_arround_count = 0; bad_seq = 65535 };
}

abbrev new_reader : RtpReader
new_reader = record reader {
  seq = record { seq_num = 0; wrap_arround_count = 0; bad_seq = 0 };
  last_ssrc = 0;
}

made_writer : new_rtp_writer alaw_formats 1000 77 ≡ ok new_writer
unfolding new_rtp_writer update_clock_rate new_rtp_sequencer init_seq format_numeric eq_text
made_writer = refl

made_reader : new_rtp_reader alaw_formats ≡ ok new_reader
unfolding new_rtp_reader format_numeric eq_text
made_reader = refl

source_not_zero : new_writer.ssrc ≢ 0
source_not_zero e = cc

away_from_wrap : 1000 % 65536 ≢ 65535
away_from_wrap e = omega arith

read_all-new_rtp_writer_example :
    let sent = write_all plain_codec takes_all new_writer two_payloads in
    let got = read_all plain_codec 160 new_reader sent.1 in
    (got.1 ≡ map ok two_payloads) × Follows sent.0 got.0
read_all-new_rtp_writer_example =
    read_all-new_rtp_writer plain_codec takes_all 160 (codes "8") [] 1000 77 new_writer new_reader
      (1 ∷ 2 ∷ 3 ∷ []) ([] ∷ []) plain_codec-IsFaithful length-wire made_writer made_reader
      (omega arith) source_not_zero away_from_wrap two_payloads_fit
