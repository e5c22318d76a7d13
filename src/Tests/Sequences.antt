-- ===== src/Tests/Sequences.antt =====
-- Sequence numbers and telephone events.
use sipgox.Prelude.{ℕ, ◌≡◌, ◌≢◌, refl, Bool, true, false, none, some, [], ◌∷◌, inl, inr, map, arith}
use sipgox.Sequencer.{
  ExtendedSequenceNumber, sequence_bad, update_seq, next_seq_number, read_extended_seq,
}
use sipgox.Sequencer.Words.{IsWord}
use sipgox.Sequencer.Sender.{after_calls, numbers}
use sipgox.Sequencer.Receiver.{receive_all, receive_all-numbers}
use sipgox.Dtmf.{DtmfEvent, dtmf_event_mapping, dtmf_decode, dtmf_encode}
use sipgox.Dtmf.Payload
use sipgox.Dtmf.Payload.{dtmf_decode-dtmf_encode, dtmf_encode-dtmf_decode}
use sipgox.Dtmf.Series.{IsKey, payloads, received, sent, received-payloads}

-- Two numbers before a wrap-around.
abbrev near_wrap : ExtendedSequenceNumber
near_wrap = record { seq_num = 65534; wrap_arround_count = 3; bad_seq = 0 }

near_wrap-IsWord : IsWord near_wrap
near_wrap-IsWord = ground arith

numbers_wrap : numbers 3 near_wrap ≡ 65535 ∷ 0 ∷ 1 ∷ []
unfolding numbers next_seq_number
numbers_wrap = refl

receive_all-numbers_example :
    read_extended_seq (receive_all near_wrap (numbers 5 near_wrap))
    ≡ read_extended_seq (after_calls 5 near_wrap)
receive_all-numbers_example = receive_all-numbers 5 near_wrap near_wrap near_wrap-IsWord refl refl

refused : (update_seq near_wrap 20000).1 ≡ some sequence_bad
unfolding update_seq
refused = refl

abbrev restarted : ℕ
restarted = 20000

not_waited_for : restarted ≢ near_wrap.bad_seq
not_waited_for e = cc

abbrev pressed : DtmfEvent
pressed = record { event = 5; end_of_event = true; volume = 70; duration = 800 }

pressed-IsWord : Payload.IsWord pressed
pressed-IsWord = ground arith

dtmf_decode-dtmf_encode_example :
    dtmf_decode (dtmf_encode pressed) (sent 0 false 0) ≡ (record pressed { volume = 6 }, none)
dtmf_decode-dtmf_encode_example = dtmf_decode-dtmf_encode pressed (sent 0 false 0) pressed-IsWord

received-payloads_example :
    received pressed (payloads b'#')
    ≡ map
        (λ (s : Bool × ℕ). (sent (dtmf_event_mapping b'#') s.0 s.1, none))
        ((false, 160)
          ∷ (false, 320)
          ∷ (false, 480)
          ∷ (false, 640)
          ∷ (true, 800)
          ∷ (true, 800)
          ∷ (true, 800)
          ∷ [])
received-payloads_example = received-payloads b'#' pressed

abbrev pound : ℕ
pound = b'#'

abbrev star : ℕ
star = b'*'

pound-IsKey : IsKey pound
pound-IsKey = inr (inr (inl refl))

star-IsKey : IsKey star
star-IsKey = inr (inl refl)

pound-ne-star : pound ≢ star
pound-ne-star e = cc

space-not_IsKey : ¬ IsKey 32
space-not_IsKey k = omega arith
