-- ===== src/Dtmf.antt =====
-- media.go, from `dtmfEventMapping` on: telephone events (RFC 4733) and their payloads. A byte is
-- a number below 256, and `[]byte` is the list of its bytes.
pub mod Payload
pub mod Series
use Prim.Native.Nat.{bit_and, bit_or}
use sipgox.Prelude.{
  ℕ, suc, zero, ◌+◌, ◌-◌, ◌*◌, ◌/◌, ◌%◌, Bool, true, false, not, Option, none, some, List, [], ◌∷◌,
  ◌++◌, ◌==◌, ltb, leb, ◌&&◌, if◌then◌else◌,
}

pub record DtmfEvent : Type 0 where
  pub event : ℕ  -- uint8
  pub end_of_event : Bool
  pub volume : ℕ  -- uint8
  pub duration : ℕ  -- uint16

-- A lookup of a rune in the map, which yields 0 for a missing key.
unfoldable pub dtmf_event_mapping : ℕ → ℕ
dtmf_event_mapping char =
    if leb b'0' char && leb char b'9'
    then char - b'0'
    else if char == b'*'
    then 10
    else if char == b'#'
    then 11
    else if leb b'A' char && leb char b'D'
    then char - b'A' + 12
    else 0

-- `d` of the first loop, at `i`.
abbrev pub progress_event : ℕ → ℕ → DtmfEvent
progress_event event i = record {
  event = event;
  end_of_event = false;
  volume = 10;
  duration = 160 * (i % 65536 + 1) % 65536;
}

-- `d` of the second loop.
abbrev pub end_event : ℕ → DtmfEvent
end_event event = record { event = event; end_of_event = true; volume = 10; duration = 160 * 5 }

-- `for i := from; i < from+n; i++ { events[i] = … }`, onto the events before.
pub fill_events : ℕ → ℕ → (ℕ → DtmfEvent) → List DtmfEvent
fill_events zero i body = []
fill_events (suc n) i body = body i ∷ fill_events n (i + 1) body

unfoldable pub rtp_dtmf_encode : ℕ → List DtmfEvent
unfolding fill_events
rtp_dtmf_encode char =
    let event = dtmf_event_mapping char in
    fill_events 4 0 (progress_event event) ++ fill_events 3 4 (λ i. end_event event)

pub data DecodeError : Type 0 where
  payload_too_short : DecodeError

-- `DTMFDecode` writes to `*d`; on an error it leaves it alone.
unfoldable pub dtmf_decode : List ℕ → DtmfEvent → DtmfEvent × Option DecodeError
dtmf_decode (b0 ∷ b1 ∷ b2 ∷ b3 ∷ rest) d = (
  record {
    event = b0;
    end_of_event = not (bit_and b1 0x80 == 0);
    volume = bit_and b1 0x7f;
    duration = b2 * 256 + b3;
  },
  none,
)
dtmf_decode _ d = (d, some payload_too_short)

-- `header[1]` is 0 or 0x80 before the volume is put in.
unfoldable pub dtmf_encode : DtmfEvent → List ℕ
dtmf_encode d =
    d.event
    ∷ bit_or (if d.end_of_event then 0x80 else 0) (bit_and d.volume 0x3f)
    ∷ d.duration / 256 % 256
    ∷ d.duration % 256
    ∷ []
