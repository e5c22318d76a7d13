-- ===== src/Dtmf/Payload.antt =====
-- Encoding and decoding of a telephone event's payload.
use Prim.Native.Nat.{bit_and, bit_or}
use sipgox.Prelude.{
  ℕ, ◌%◌, ◌<◌, ◌≡◌, refl, ap, Bool, true, false, not, none, some, List, [], ◌∷◌, arith, length,
  ◌==◌, ==_iff, if◌then◌else◌,
}
use sipgox.Prelude.Tables.{holds_below, holds_below_at}
use sipgox.Dtmf.{DtmfEvent, payload_too_short, dtmf_decode, dtmf_encode}

-- Facts about the bits of a byte are read off tables of all 256 values.
flag_byte : Bool → ℕ → ℕ
flag_byte flag v = bit_or (if flag then 0x80 else 0) (bit_and v 0x3f)

end_table : holds_below (λ v. not (bit_and (flag_byte true v) 0x80 == 0)) 256 ≡ true
unfolding holds_below flag_byte
end_table = refl

progress_table : holds_below (λ v. bit_and (flag_byte false v) 0x80 == 0) 256 ≡ true
unfolding holds_below flag_byte
progress_table = refl

volume_table :
    (flag : Bool) → holds_below (λ v. bit_and (flag_byte flag v) 0x7f == v % 64) 256 ≡ true
unfolding holds_below flag_byte
volume_table true = refl
volume_table false = refl

-- The byte that is written back, from a byte whose reserved bit 0x40 is clear.
rebuilt : ℕ → ℕ
rebuilt b = flag_byte (not (bit_and b 0x80 == 0)) (bit_and b 0x7f)

rebuilt_table : holds_below (λ b. if bit_and b 0x40 == 0 then rebuilt b == b else true) 256 ≡ true
unfolding holds_below rebuilt flag_byte
rebuilt_table = refl

flag_byte-end : (flag : Bool) (v : ℕ) → v < 256 → not (bit_and (flag_byte flag v) 0x80 == 0) ≡ flag
flag_byte-end true v h = holds_below_at _ 256 v h end_table
flag_byte-end false v h = ap not (holds_below_at _ 256 v h progress_table)

flag_byte-volume : (flag : Bool) (v : ℕ) → v < 256 → bit_and (flag_byte flag v) 0x7f ≡ v % 64
flag_byte-volume flag v h = (==_iff _ _).0 (holds_below_at _ 256 v h (volume_table flag))

rebuilt_lem : (b : ℕ) → b < 256 → bit_and b 0x40 ≡ 0 → rebuilt b ≡ b
rebuilt_lem b h clear = (==_iff _ _).0 (ground (arith, holds_below_at _ 256 b h rebuilt_table))

-- The ranges of an event's Go types.
pub record IsWord (d : DtmfEvent) : Type 0 where
  pub volume_byte : d.volume < 256
  pub duration_word : d.duration < 65536

-- Where the fields fit their Go types, what is encoded is decoded with the same event, end flag and duration; of the volume the low
-- six bits come back. What `*d` held before does not matter.
pub dtmf_decode-dtmf_encode :
    (d old : DtmfEvent)
    → IsWord d
    → dtmf_decode (dtmf_encode d) old ≡ (record d { volume = d.volume % 64 }, none)
unfolding dtmf_decode dtmf_encode flag_byte
dtmf_decode-dtmf_encode d old w = ground (
  arith,
  flag_byte-end d.end_of_event d.volume w.volume_byte,
  flag_byte-volume d.end_of_event d.volume w.volume_byte,
)

-- A payload of at least four bytes whose reserved bit is clear is decoded, and encoding the result
-- gives its first four bytes back.
pub dtmf_encode-dtmf_decode :
    (b0 b1 b2 b3 : ℕ) (rest : List ℕ) (old : DtmfEvent)
    → b1 < 256
    → b2 < 256
    → b3 < 256
    → bit_and b1 0x40 ≡ 0
    → ((dtmf_decode (b0 ∷ b1 ∷ b2 ∷ b3 ∷ rest) old).1 ≡ none)
      × (dtmf_encode (dtmf_decode (b0 ∷ b1 ∷ b2 ∷ b3 ∷ rest) old).0 ≡ b0 ∷ b1 ∷ b2 ∷ b3 ∷ [])
unfolding dtmf_decode dtmf_encode flag_byte rebuilt
dtmf_encode-dtmf_decode b0 b1 b2 b3 rest old h1 h2 h3 clear =
    ground (arith, rebuilt_lem b1 h1 clear)

-- A payload of fewer than four bytes is refused, and `*d` is left alone.
pub dtmf_decode_refused :
    (payload : List ℕ) (old : DtmfEvent)
    → length payload < 4
    → dtmf_decode payload old ≡ (old, some payload_too_short)
unfolding dtmf_decode
dtmf_decode_refused [] old h = refl
dtmf_decode_refused (_ ∷ []) old h = refl
dtmf_decode_refused (_ ∷ _ ∷ []) old h = refl
dtmf_decode_refused (_ ∷ _ ∷ _ ∷ []) old h = refl
dtmf_decode_refused (_ ∷ _ ∷ _ ∷ _ ∷ _) old h = absurd (omega arith)
