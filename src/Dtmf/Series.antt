-- ===== src/Dtmf/Series.antt =====
-- The series of events that one key press sends.
use sipgox.Prelude.{
  ℕ, ◌<◌, ◌≤◌, ◌≡◌, ◌≢◌, ◌⊎◌, Bool, true, false, Option, none, List, [], ◌∷◌, map, arith,
}
use sipgox.Dtmf.{
  DtmfEvent, DecodeError, dtmf_event_mapping, rtp_dtmf_encode, dtmf_decode, dtmf_encode,
}
use sipgox.Dtmf.Payload.{dtmf_decode-dtmf_encode}

-- The sixteen keys of a telephone: 0 to 9, the star, the pound sign, and A to D.
abbrev pub IsKey : ℕ → Type 0
IsKey char =
    ((48 ≤ char) × (char < 58)) ⊎ ((char ≡ 42) ⊎ ((char ≡ 35) ⊎ ((65 ≤ char) × (char < 69))))

dtmf_event_mapping-injective :
    (a b : ℕ) → IsKey a → IsKey b → dtmf_event_mapping a ≡ dtmf_event_mapping b → a ≡ b
unfolding dtmf_event_mapping
dtmf_event_mapping-injective a b k l e = ground arith

-- The payloads that are sent for one character.
abbrev pub payloads : ℕ → List (List ℕ)
payloads char = map dtmf_encode (rtp_dtmf_encode char)

-- What a receiver that starts from `old` decodes, payload by payload.
abbrev pub received : DtmfEvent → List (List ℕ) → List (DtmfEvent × Option DecodeError)
received old = map (λ p. dtmf_decode p old)

-- An event as the series has them.
abbrev pub sent : ℕ → Bool → ℕ → DtmfEvent
sent event flag duration = record {
  event = event;
  end_of_event = flag;
  volume = 10;
  duration = duration;
}

decoded :
    (event : ℕ) (flag : Bool) (duration : ℕ) (old : DtmfEvent)
    → duration < 65536
    → let d = sent event flag duration in dtmf_decode (dtmf_encode d) old ≡ (d, none)
decoded event flag duration old h =
    dtmf_decode-dtmf_encode (sent event flag duration) old (ground arith)

-- Every character's seven payloads decode without error to the seven events of its series: four
-- that grow by 160 samples and do not end the event, then three of 800 samples that do, all with
-- the character's event code and volume 10.
pub received-payloads :
    (char : ℕ) (old : DtmfEvent)
    → received old (payloads char)
      ≡ map
          (λ (s : Bool × ℕ). (sent (dtmf_event_mapping char) s.0 s.1, none))
          ((false, 160)
            ∷ (false, 320)
            ∷ (false, 480)
            ∷ (false, 640)
            ∷ (true, 800)
            ∷ (true, 800)
            ∷ (true, 800)
            ∷ [])
unfolding rtp_dtmf_encode
received-payloads char old =
    let event = dtmf_event_mapping char in
    simp (
      decoded event false 160 old (omega arith),
      decoded event false 320 old (omega arith),
      decoded event false 480 old (omega arith),
      decoded event false 640 old (omega arith),
      decoded event true 800 old (omega arith),
    )

-- Two different keys of the sixteen send different payloads.
pub payloads-distinct : (a b : ℕ) → IsKey a → IsKey b → a ≢ b → payloads a ≢ payloads b
unfolding rtp_dtmf_encode dtmf_encode
payloads-distinct a b k l ne e = ne (dtmf_event_mapping-injective a b k l (ground arith))

-- Every other character is sent as the key 0.
pub rtp_dtmf_encode_unknown :
    (char : ℕ) → ¬ IsKey char → rtp_dtmf_encode char ≡ rtp_dtmf_encode b'0'
unfolding rtp_dtmf_encode dtmf_event_mapping
rtp_dtmf_encode_unknown char none_of = ground arith
