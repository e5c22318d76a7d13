-- ===== src/Sequencer/Words.antt =====
-- The fields of a sequencer stay 16-bit words.
use sipgox.Prelude.{ℕ, ◌<◌, arith}
use sipgox.Sequencer.{
  ExtendedSequenceNumber, init_seq, new_rtp_sequencer, update_seq, next_seq_number,
}

pub record IsWord (sn : ExtendedSequenceNumber) : Type 0 where
  pub seq_num_word : sn.seq_num < 65536
  pub wrap_word : sn.wrap_arround_count < 65536
  pub bad_seq_word : sn.bad_seq < 65536

pub new_rtp_sequencer-IsWord : (random : ℕ) → IsWord (new_rtp_sequencer random)
unfolding new_rtp_sequencer
new_rtp_sequencer-IsWord random = ground arith

pub init_seq-IsWord :
    (sn : ExtendedSequenceNumber) (seq : ℕ) → seq < 65536 → IsWord (init_seq sn seq)
unfolding init_seq
init_seq-IsWord sn seq h = ground arith

pub update_seq-IsWord :
    {sn : ExtendedSequenceNumber} (seq : ℕ) → seq < 65536 → IsWord sn → IsWord (update_seq sn seq).0
unfolding update_seq
update_seq-IsWord seq h w = ground arith

pub next_seq_number-IsWord :
    {sn : ExtendedSequenceNumber} → IsWord sn → IsWord (next_seq_number sn).0
unfolding next_seq_number
next_seq_number-IsWord w = ground arith
