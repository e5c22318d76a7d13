-- ===== src/Tests/Packets.antt =====
-- A codec for packets without extensions, contributing sources and padding, as RFC 3550 lays them out.
use sipgox.Prelude.{
  map, length, ℕ, ◌+◌, ◌*◌, ◌/◌, ◌%◌, ◌<◌, ◌≡◌, refl, Bool, false, [], ◌∷◌, ◌++◌, arith, leb,
  if◌then◌else◌,
}
use sipgox.Outcome.{net_closed, Outcome, ok, err, short_buffer}
use sipgox.Rtp.{Bytes, Header, Packet, RtpCodec}
use sipgox.Rtp.Session.{echo}
use sipgox.Rtp.Session.Client.{dialog_done, elapsed, client_echo, test_packets, client_echo-echo}
use sipgox.Rtp.Reader.Stream.{IsPlain, IsFaithful}

abbrev header_of : ℕ → ℕ → ℕ → ℕ → ℕ → Header
header_of first second number stamp source = record {
  version = first / 64;
  padding = leb 32 (first % 64);
  extension = false;
  marker = leb 128 second;
  payload_type = second % 128;
  sequence_number = number;
  timestamp = stamp;
  ssrc = source;
  csrc = [];
  extensions = [];
}

abbrev plain_unmarshal : Bytes → Outcome Packet
plain_unmarshal (a ∷ b ∷ s1 ∷ s0 ∷ t3 ∷ t2 ∷ t1 ∷ t0 ∷ c3 ∷ c2 ∷ c1 ∷ c0 ∷ payload) = ok (record {
  header =
      header_of a b (s1 * 256 + s0) (t3 * 16777216 + (t2 * 65536 + (t1 * 256 + t0)))
        (c3 * 16777216 + (c2 * 65536 + (c1 * 256 + c0)));
  payload = payload;
  padding_size = 0;
})
plain_unmarshal _ = err short_buffer

abbrev header_only : Header → Outcome Packet → Header × Outcome ℕ
header_only h (ok p) = (p.header, ok 12)
header_only h _ = (h, err short_buffer)

abbrev pub plain_wire : Packet → Bytes
plain_wire p =
    128
    ∷ ((if p.marker then 128 else 0) + p.payload_type)
    ∷ p.sequence_number / 256
    ∷ p.sequence_number % 256
    ∷ p.timestamp / 16777216
    ∷ p.timestamp / 65536 % 256
    ∷ p.timestamp / 256 % 256
    ∷ p.timestamp % 256
    ∷ p.ssrc / 16777216
    ∷ p.ssrc / 65536 % 256
    ∷ p.ssrc / 256 % 256
    ∷ p.ssrc % 256
    ∷ p.payload

abbrev pub plain_codec : RtpCodec
plain_codec = record {
  header_unmarshal = λ b h. header_only h (plain_unmarshal b);
  unmarshal = plain_unmarshal;
  marshal = λ p. ok (plain_wire p);
}

four_bytes :
    (n : ℕ)
    → n / 16777216 * 16777216 + (n / 65536 % 256 * 65536 + (n / 256 % 256 * 256 + n % 256)) ≡ n
four_bytes n = omega arith

two_bytes : (n : ℕ) → n / 256 * 256 + n % 256 ≡ n
two_bytes n = omega arith

flag_first :
    (flag : Bool) (n : ℕ)
    → n < 128
    → (leb 128 ((if flag then 128 else 0) + n) ≡ flag) × (((if flag then 128 else 0) + n) % 128 ≡ n)
flag_first flag n h = ground arith

pub plain_codec-IsFaithful : IsFaithful plain_codec
plain_codec-IsFaithful = record {
  wire = plain_wire;
  marshals = λ p h. refl;
  unmarshals = λ p h.
      rw (two_bytes p.sequence_number, four_bytes p.timestamp, four_bytes p.ssrc)
        (ground (arith, flag_first p.marker p.payload_type h.payload_type_small));
}

-- A header of 12 bytes.
pub length-wire :
    (p : Packet) → IsPlain p → length (plain_codec-IsFaithful.wire p) ≡ 12 + length p.payload
unfolding plain_codec-IsFaithful
length-wire p h = omega arith

abbrev pub plain_packet : Packet
plain_packet = record { header = header_of 128 8 5 160 77; payload = 1 ∷ []; padding_size = 0 }

pub plain_packet-IsPlain : IsPlain plain_packet
plain_packet-IsPlain = ground arith

client_echo-echo_example :
    let sent = test_packets (λ i. i % 65536) 0 2 in
    let answers =
      echo plain_codec
        (λ wire. ok (length wire))
        200
        (map plain_codec.marshal sent ++ err net_closed ∷ []) in
    (answers ≡ sent)
    × (client_echo plain_codec
          (λ wire. ok (length wire))
          (λ i. i % 65536)
          200
          (elapsed ∷ elapsed ∷ dialog_done ∷ [])
          (map plain_codec.marshal answers)
        ≡ sent)
client_echo-echo_example =
    client_echo-echo plain_codec plain_codec-IsFaithful (λ i. i % 65536) (λ i. omega arith) 2 []
      net_closed []
