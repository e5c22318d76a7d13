-- ===== src/Sequencer/Receiver.antt =====
-- What `UpdateSeq` makes of the numbers that it is given.
use sipgox.Prelude.{ℕ, zero, suc, ◌+◌, ◌%◌, ◌<◌, ◌≤◌, ◌≡◌, ◌≢◌, none, some, List, [], ◌∷◌, arith}
use sipgox.Sequencer.{
  ExtendedSequenceNumber, SequenceError, sequence_bad, max_dropout, udelta, init_seq, update_seq,
  next_seq_number, read_extended_seq,
}
use sipgox.Sequencer.Words.{IsWord, next_seq_number-IsWord}
use sipgox.Sequencer.Sender.{after_calls, numbers}

-- Where all are 16-bit words, a number less than 3000 ahead of the last one (modulo 2 ^ 16) is accepted, and moves the
-- extended number forward by exactly that distance, modulo 2 ^ 32.
pub read_extended_seq-update_seq :
    (sn : ExtendedSequenceNumber) (seq : ℕ)
    → IsWord sn
    → seq < 65536
    → udelta seq sn.seq_num < max_dropout
    → ((update_seq sn seq).1 ≡ none)
      × (read_extended_seq (update_seq sn seq).0
          ≡ (read_extended_seq sn + udelta seq sn.seq_num) % 4294967296)
unfolding update_seq read_extended_seq
read_extended_seq-update_seq sn seq w h near = ground arith

-- A refused number leaves the extended number as it was, and was at least 3000 ahead.
pub update_seq_refused :
    (sn : ExtendedSequenceNumber) (seq : ℕ) {e : SequenceError}
    → (update_seq sn seq).1 ≡ some e
    → (read_extended_seq (update_seq sn seq).0 ≡ read_extended_seq sn)
      × (max_dropout ≤ udelta seq sn.seq_num)
unfolding update_seq read_extended_seq
update_seq_refused sn seq h = ground arith

-- A source that restarts is taken up again at its second packet: of two consecutive numbers that
-- are both a large jump ahead, where the first is not the number the sequencer waits for, the
-- first is refused as bad, the second is accepted, and it starts a new count.
pub update_seq_restart :
    (sn : ExtendedSequenceNumber) (seq : ℕ)
    → IsWord sn
    → seq < 65536
    → max_dropout ≤ udelta seq sn.seq_num
    → udelta seq sn.seq_num < 65435
    → seq ≢ sn.bad_seq
    → ((update_seq sn seq).1 ≡ some sequence_bad)
      × (update_seq (update_seq sn seq).0 ((seq + 1) % 65536)
          ≡ (init_seq sn ((seq + 1) % 65536), none))
unfolding update_seq
update_seq_restart sn seq w h far near fresh = ground arith

-- The receiver after it has been given the numbers, one after the other.
unfoldable pub receive_all : ExtendedSequenceNumber → List ℕ → ExtendedSequenceNumber
receive_all r [] = r
receive_all r (seq ∷ rest) = receive_all (update_seq r seq).0 rest

pub step_in_sync :
    (s r : ExtendedSequenceNumber)
    → IsWord s
    → r.seq_num ≡ s.seq_num
    → r.wrap_arround_count ≡ s.wrap_arround_count
    → ((update_seq r (next_seq_number s).1).0.seq_num ≡ (next_seq_number s).0.seq_num)
      × ((update_seq r (next_seq_number s).1).0.wrap_arround_count
          ≡ (next_seq_number s).0.wrap_arround_count)
unfolding update_seq next_seq_number
step_in_sync s r w e f = ground arith

-- A receiver that agrees with the sender, whose fields are 16-bit words, and is given all the sender's numbers in order, still
-- agrees with it after any number of packets, through every wrap-around.
pub receive_all-numbers :
    (n : ℕ) (s r : ExtendedSequenceNumber)
    → IsWord s
    → r.seq_num ≡ s.seq_num
    → r.wrap_arround_count ≡ s.wrap_arround_count
    → read_extended_seq (receive_all r (numbers n s)) ≡ read_extended_seq (after_calls n s)
unfolding receive_all numbers after_calls
receive_all-numbers zero s r w e f = unfold read_extended_seq in ground arith
receive_all-numbers (suc n) s r w e f =
    let (e', f') = step_in_sync s r w e f in
    receive_all-numbers n (next_seq_number s).0 (update_seq r (next_seq_number s).1).0
      (next_seq_number-IsWord w) e' f'

-- `InitSeq` stores 65535 as the number that it waits for, which is a number that can come: one
-- jump to 65535 after a start at most 62535 is accepted as a restart.
pub update_seq-init_seq_max :
    (sn : ExtendedSequenceNumber) (first : ℕ)
    → 100 ≤ first
    → first ≤ 62535
    → update_seq (init_seq sn first) 65535 ≡ (init_seq sn 65535, none)
unfolding update_seq init_seq
update_seq-init_seq_max sn first lo hi = ground arith
