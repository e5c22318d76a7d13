-- ===== src/Sequencer.antt =====
-- rtp_sequencer.go: extended RTP sequence numbers, for the writer (`NextSeqNumber`) and the
-- reader (`UpdateSeq`). A `uint16` is a number below 2 ^ 16, its arithmetic taken modulo 2 ^ 16;
-- a method on the pointer returns the new record, and `error` is an `Option`.
pub mod Words
pub mod Sender
pub mod Receiver
use sipgox.Prelude.{ℕ, ◌+◌, ◌-◌, ◌*◌, ◌%◌, ◌<◌, Option, none, some, ltb, leb, ◌==◌, if◌then◌else◌}

abbrev pub max_misorder : ℕ
max_misorder = 100

abbrev pub max_dropout : ℕ
max_dropout = 3000

abbrev pub max_seq_num : ℕ
max_seq_num = 65535

pub data SequenceError : Type 0 where
  sequence_bad sequence_duplicate : SequenceError

pub record ExtendedSequenceNumber : Type 0 where
  pub seq_num : ℕ  -- uint16
  pub wrap_arround_count : ℕ  -- uint16
  pub bad_seq : ℕ  -- uint16

unfoldable pub init_seq : ExtendedSequenceNumber → ℕ → ExtendedSequenceNumber
init_seq sn seq = record sn { seq_num = seq; bad_seq = max_seq_num; wrap_arround_count = 0 }

-- `NewRTPSequencer`, with the word that `rand.Uint32` returned.
unfoldable pub new_rtp_sequencer : ℕ → ExtendedSequenceNumber
unfolding init_seq
new_rtp_sequencer random =
    init_seq (record { seq_num = 0; wrap_arround_count = 0; bad_seq = 0 }) (random % 65536)

-- `seq - maxSeq` on uint16.
abbrev pub udelta : ℕ → ℕ → ℕ
udelta seq max_seq = (seq + 65536 - max_seq) % 65536

unfoldable pub update_seq :
    ExtendedSequenceNumber → ℕ → ExtendedSequenceNumber × Option SequenceError
unfolding init_seq
update_seq sn seq =
    if ltb (udelta seq sn.seq_num) max_dropout
    then (
      record sn {
        wrap_arround_count =
            if ltb seq sn.seq_num
            then (sn.wrap_arround_count + 1) % 65536
            else sn.wrap_arround_count;
        seq_num = seq;
      },
      none,
    )
    else if leb (udelta seq sn.seq_num) (max_seq_num - max_misorder)
    then if seq == sn.bad_seq
      then (init_seq sn seq, none)
      else (record sn { bad_seq = (seq + 1) % 65536 }, some sequence_bad)
    else (sn, some sequence_duplicate)

unfoldable pub read_extended_seq : ExtendedSequenceNumber → ℕ
read_extended_seq sn = sn.seq_num + (max_seq_num + 1) * sn.wrap_arround_count

unfoldable pub next_seq_number : ExtendedSequenceNumber → ExtendedSequenceNumber × ℕ
next_seq_number s =
    let next = (s.seq_num + 1) % 65536 in
    (
      record s {
        seq_num = next;
        wrap_arround_count =
            if next == 0 then (s.wrap_arround_count + 1) % 65536 else s.wrap_arround_count;
      },
      next,
    )
