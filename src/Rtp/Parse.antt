-- ===== src/Rtp/Parse.antt =====
-- What `rtpUnmarshal` leaves in the packet.
use mathlib.Core.List.{append_assoc, append-nil}
use sipgox.Prelude.{
  if_true, if_false, ℕ, suc, ◌+◌, ◌-◌, ◌<◌, ◌≡◌, ◌∙◌, sym, ap, refl, true, false, [], ◌∷◌, ◌++◌,
  length, ltb, arith, length-append,
}
use sipgox.Outcome.{ok, err, short_buffer}
use sipgox.Text.Lemmas.{take-append_left, drop-append_left}
use sipgox.Sdp.{byte_at}
use sipgox.Sdp.Reading.{byte_at-append}
use sipgox.Rtp.{
  Bytes, Header, Packet, RtpCodec, rtp_unmarshal, unmarshalled, padded, cut_payload,
  without_extensions,
}

cut_payload_at :
    (head payload tail : Bytes) (p : Packet)
    → cut_payload ((head ++ payload) ++ tail) (length head) (length tail) p
      ≡ (record p { payload = payload }, ok tt)
unfolding cut_payload
cut_payload_at head payload tail p =
    let whole = length-append (head ++ payload) tail in
    let front = length-append head payload in
    let long : ltb (length ((head ++ payload) ++ tail)) (length head + length tail) ≡ false =
      ground (arith, whole, front) in
    let kept : length ((head ++ payload) ++ tail) - length tail ≡ length (head ++ payload) =
      omega (arith, whole) in
    rw (long, kept, take-append_left (head ++ payload) tail, drop-append_left head payload)

cut_payload_whole :
    (head payload : Bytes) (p : Packet)
    → cut_payload (head ++ payload) (length head) 0 p ≡ (record p { payload = payload }, ok tt)
cut_payload_whole head payload p =
    ap (λ b. cut_payload b (length head) 0 p) (sym (append-nil (head ++ payload)))
    ∙ cut_payload_at head payload [] p

padded_last :
    (t : Bytes) (pad n : ℕ) (p : Packet)
    → padded (t ++ pad ∷ []) n p
      ≡ cut_payload (t ++ pad ∷ []) n pad (record p { padding_size = pad })
unfolding padded
padded_last [] pad n p = refl
padded_last (x ∷ t) pad n p =
    let at : length (t ++ pad ∷ []) ≡ suc (length t) = length-append t (pad ∷ []) ∙ omega arith in
    rw at (rw (byte_at-append t [] pad))

-- Bytes that are a header that sets no padding and a payload give the header, its extensions taken
-- off, and the payload. The padding size of the packet that was passed in stays.
pub rtp_unmarshal_plain :
    (codec : RtpCodec) (head payload : Bytes) (h : Header) (p : Packet)
    → codec.header_unmarshal (head ++ payload) p.header ≡ (h, ok (length head))
    → h.padding ≡ false
    → rtp_unmarshal codec (head ++ payload) p ≡ (
      record { header = without_extensions h; payload = payload; padding_size = p.padding_size },
      ok tt,
    )
unfolding rtp_unmarshal unmarshalled
rtp_unmarshal_plain codec head payload h p e plain = rw e (
    if_false _ _ plain
    ∙ cut_payload_whole head payload (record p { header = without_extensions h }))

padded_tail :
    (head payload fill : Bytes) (p : Packet)
    → let pad = length fill + 1 in
      padded ((head ++ payload) ++ (fill ++ pad ∷ [])) (length head) p
      ≡ (record p { payload = payload; padding_size = pad }, ok tt)
padded_tail head payload fill p =
    let pad = length fill + 1 in
    let p' : Packet = record p { padding_size = pad } in
    let grouped = append_assoc (head ++ payload) fill (pad ∷ []) in
    let counted : length (fill ++ pad ∷ []) ≡ pad = length-append fill (pad ∷ []) ∙ refl in
    ap (λ b. padded b (length head) p) (sym grouped)
    ∙ padded_last ((head ++ payload) ++ fill) pad (length head) p
    ∙ ap (λ b. cut_payload b (length head) pad p') grouped
    ∙ ap (λ k. cut_payload ((head ++ payload) ++ (fill ++ pad ∷ [])) (length head) k p')
        (sym counted)
    ∙ cut_payload_at head payload (fill ++ pad ∷ []) p'

-- Bytes that are a header that sets padding, a payload, and padding whose last byte is its length,
-- give the header, its extensions taken off, the payload and the length of the padding.
pub rtp_unmarshal_padded :
    (codec : RtpCodec) (head payload fill : Bytes) (h : Header) (p : Packet)
    → let pad = length fill + 1 in
      let buf = (head ++ payload) ++ (fill ++ pad ∷ []) in
      codec.header_unmarshal buf p.header ≡ (h, ok (length head))
      → h.padding ≡ true
      → rtp_unmarshal codec buf p
        ≡ (record { header = without_extensions h; payload = payload; padding_size = pad }, ok tt)
unfolding rtp_unmarshal unmarshalled
rtp_unmarshal_padded codec head payload fill h p e on =
    rw e
      (if_true _ _ on ∙ padded_tail head payload fill (record p { header = without_extensions h }))

-- A header that promises more than there is, padding counted, is an error, and the payload stays.
pub rtp_unmarshal_short :
    (codec : RtpCodec) (b : ℕ) (buf : Bytes) (n : ℕ) (h : Header) (p : Packet)
    → codec.header_unmarshal (b ∷ buf) p.header ≡ (h, ok n)
    → h.padding ≡ true
    → suc (length buf) < n + byte_at (b ∷ buf) (length buf)
    → ((rtp_unmarshal codec (b ∷ buf) p).1 ≡ err short_buffer)
      × ((rtp_unmarshal codec (b ∷ buf) p).0.payload ≡ p.payload)
unfolding rtp_unmarshal unmarshalled padded cut_payload
rtp_unmarshal_short codec b buf n h p e on short = rw e (ground arith)
