-- ===== src/MediaSession/Agreement.antt =====
-- An offer and its answer: `RemoteSDP` on both sides of a call.
use sipgox.Prelude.{
  ap, ℕ, ◌≤◌, ◌<◌, ◌≡◌, refl, ◌∙◌, sym, true, List, [], ◌∷◌, ◌++◌, some, arith, length, Bool-cases,
  inl, inr, ltb, All,
}
use sipgox.Prelude.Int.{ℤ, pos, increment}
use sipgox.Text.{Text, codes}
use sipgox.Text.Lemmas.{eq_text_refl}
use sipgox.Text.Words.{IsWord}
use sipgox.Ip.{Ip6Notation}
use sipgox.Outcome.{ok}
use sipgox.Sdp.Generate.Lines.{IsOffer}
use sipgox.MediaSession.{MediaSession, UdpAddr, local_sdp, remote_sdp, update_formats}
use sipgox.MediaSession.Formats.{occurrences, kept, IsDistinct, update_formats-kept}
use sipgox.MediaSession.Negotiation.{CanOffer, remote_sdp-local_sdp}

-- The format of telephone events, which every offer adds.
abbrev event_format : Text
event_format = codes "101"

-- A format that the local side does not have adds nothing at the end of the offer.
kept-append_absent :
    (fs : List Text) (f : Text) (local : List Text)
    → occurrences f local ≡ 0
    → kept (fs ++ f ∷ []) local ≡ kept fs local
kept-append_absent [] f local h = ground arith
kept-append_absent (g ∷ fs) f local h = rw (kept-append_absent fs f local h) refl

occurrences-kept :
    (f : Text) (fs local : List Text) → occurrences f (kept fs local) ≤ occurrences f fs
occurrences-kept f [] local = omega arith
occurrences-kept f (g ∷ fs) local = ground (arith, occurrences-kept f fs local)

-- Where every format stands in the local list, all are kept.
kept_all :
    (fs local : List Text)
    → ((f : Text) → 0 < occurrences f fs → 0 < occurrences f local)
    → kept fs local ≡ fs
kept_all [] local h = refl
kept_all (g ∷ fs) local h =
    let present : ltb 0 (occurrences g local) ≡ true = ground (arith, h g, eq_text_refl g) in
    rw (present, kept_all fs local (λ f more. h f (ground arith))) refl

kept-kept : (fs local : List Text) → kept (kept fs local) fs ≡ kept fs local
kept-kept fs local = kept_all (kept fs local) fs (λ f h. omega (arith, occurrences-kept f fs local))

All-kept : (P : Text → Type 0) (fs local : List Text) → All P fs → All P (kept fs local)
All-kept P [] local h = h
All-kept P (f ∷ fs) local (p, h) = elim (Bool-cases (ltb 0 (occurrences f local))) [
  | inl present ↦ rw present (p, All-kept P fs local h)
  | inr absent ↦ rw absent (All-kept P fs local h)
]

-- A session whose formats are distinct, at least one, and not that of the telephone events.
pub record HasFormats (s : MediaSession) : Type 0 where
  pub some_formats : 0 < length s.formats
  pub distinct : IsDistinct s.formats
  pub no_events : occurrences event_format s.formats ≡ 0

offered-kept :
    (s : MediaSession) (fs : List Text)
    → HasFormats s
    → (update_formats s (fs ++ event_format ∷ [])).formats ≡ kept fs s.formats
offered-kept s fs h =
    update_formats-kept _ s h.some_formats h.distinct
    ∙ kept-append_absent fs event_format s.formats h.no_events

-- The two ends of a call: the same formats, and each sends to the address of the other, RTCP one port
-- higher.
pub record Agree (s t : MediaSession) : Type 0 where
  pub same_formats : s.formats ≡ t.formats
  pub to_other : s.raddr ≡ some t.laddr
  pub to_first : t.raddr ≡ some s.laddr
  pub rtcp_to_other : s.rtcp_raddr ≡ some (record t.laddr { port = increment t.laddr.port })
  pub rtcp_to_first : t.rtcp_raddr ≡ some (record s.laddr { port = increment s.laddr.port })

-- The session that took the offer.
abbrev taker : MediaSession → List Text → UdpAddr → MediaSession
taker s fs offered = record s {
  raddr = some offered;
  rtcp_raddr = some (record offered { port = increment offered.port });
  formats = fs;
}

took_offer :
    (v6 : Ip6Notation) (now : ℤ) (peer s : MediaSession) (port : ℕ)
    → CanOffer peer port
    → HasFormats s
    → remote_sdp v6 s (local_sdp v6 now peer)
      ≡ (taker s (kept peer.formats s.formats) peer.laddr, ok tt)
unfolding update_formats
took_offer v6 now peer s port w h =
    remote_sdp-local_sdp v6 now peer s port w ∙ rw (w.port_is, offered-kept s peer.formats h) refl

taker-CanOffer :
    (peer s : MediaSession) (port : ℕ) {p : ℕ}
    → CanOffer peer p
    → IsOffer s.laddr.ip s.mode s.formats
    → s.laddr.port ≡ pos port
    → port < 0x8000_0000_0000_0000
    → CanOffer (taker s (kept peer.formats s.formats) peer.laddr) port
taker-CanOffer peer s port w o at bound = record {
  offer = record {
    a = o.a;
    b = o.b;
    c = o.c;
    d = o.d;
    ip_is = o.ip_is;
    in_range = o.in_range;
    mode_line = o.mode_line;
    format_words = All-kept IsWord peer.formats s.formats w.offer.format_words;
  };
  port_is = at;
  port_count = bound;
}

-- One session offers, a second takes the offer and answers, and the first takes the answer: where both
-- have an IPv4 address, a port, a mode on one line, and at least one format, each a word, distinct and
-- not 101, the two end with the same formats, and each sends to the address of the other, RTCP one port
-- higher.
pub remote_sdp-Agree :
    (v6 : Ip6Notation) (now later : ℤ) (caller answerer : MediaSession) (p q : ℕ)
    → CanOffer caller p
    → HasFormats caller
    → CanOffer answerer q
    → HasFormats answerer
    → let answered = (remote_sdp v6 answerer (local_sdp v6 now caller)).0 in
      Agree answered (remote_sdp v6 caller (local_sdp v6 later answered)).0
remote_sdp-Agree v6 now later caller answerer p q offers hc answers ha =
    rw (took_offer v6 now caller answerer p offers ha) (
      rw
        (took_offer v6 later _ caller q
          (taker-CanOffer caller answerer q offers answers.offer answers.port_is answers.port_count)
          hc)
        (record {
          same_formats = sym (kept-kept caller.formats answerer.formats);
          to_other = refl;
          to_first = refl;
          rtcp_to_other = refl;
          rtcp_to_first = refl;
        }))

-- The answer can be read.
pub remote_sdp_answer :
    (v6 : Ip6Notation) (now later : ℤ) (caller answerer : MediaSession) (p q : ℕ)
    → CanOffer caller p
    → HasFormats caller
    → CanOffer answerer q
    → HasFormats answerer
    → let answered = (remote_sdp v6 answerer (local_sdp v6 now caller)).0 in
      (remote_sdp v6 caller (local_sdp v6 later answered)).1 ≡ ok tt
remote_sdp_answer v6 now later caller answerer p q offers hc answers ha =
    rw (took_offer v6 now caller answerer p offers ha) (
      ap (λ x. x.1)
        (took_offer v6 later _ caller q
          (taker-CanOffer caller answerer q offers answers.offer answers.port_is answers.port_count)
          hc))
