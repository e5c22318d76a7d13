-- ===== src/Sequencer/Sender.antt =====
-- What a sender's sequencer produces, call after call.
use sipgox.Prelude.{ℕ, zero, suc, ◌+◌, ◌%◌, ◌≡◌, List, [], ◌∷◌, arith}
use sipgox.Sequencer.{ExtendedSequenceNumber, next_seq_number, read_extended_seq}
use sipgox.Sequencer.Words.{IsWord, next_seq_number-IsWord}

-- The sequencer after `n` calls of `NextSeqNumber`.
unfoldable pub after_calls : ℕ → ExtendedSequenceNumber → ExtendedSequenceNumber
after_calls zero s = s
after_calls (suc n) s = after_calls n (next_seq_number s).0

-- The numbers that `n` calls hand out.
unfoldable pub numbers : ℕ → ExtendedSequenceNumber → List ℕ
numbers zero s = []
numbers (suc n) s = let rest = numbers n (next_seq_number s).0 in (next_seq_number s).1 ∷ rest

read_extended_seq-next :
    (s : ExtendedSequenceNumber)
    → IsWord s
    → read_extended_seq (next_seq_number s).0 ≡ (read_extended_seq s + 1) % 4294967296
unfolding read_extended_seq next_seq_number
read_extended_seq-next s w = ground arith

-- After `n` calls of `NextSeqNumber` the extended number has advanced by exactly `n`, modulo
-- 2 ^ 32, from any sequencer whose fields are 16-bit words.
pub read_extended_seq-after_calls :
    (n : ℕ) (s : ExtendedSequenceNumber)
    → IsWord s
    → read_extended_seq (after_calls n s) ≡ (read_extended_seq s + n) % 4294967296
unfolding after_calls
read_extended_seq-after_calls zero s w = unfold read_extended_seq in ground (arith, w)
read_extended_seq-after_calls (suc n) s w = omega (
  arith,
  read_extended_seq-next s w,
  read_extended_seq-after_calls n (next_seq_number s).0 (next_seq_number-IsWord w),
)
