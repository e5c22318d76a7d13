-- ===== src/Rtp/Session/Logger/Lines.antt =====
-- The lines that the logger of a media stream writes.
use sipgox.Prelude.{
  ℕ, suc, ◌+◌, ◌*◌, ◌≤◌, ◌≡◌, refl, ap, ◌∙◌, none, some, List, [], ◌∷◌, ◌++◌, All, arith,
}
use sipgox.Outcome.{Outcome, err, GoError}
use sipgox.Rtp.{Bytes, Packet, RtpCodec}
use sipgox.Rtp.Reader.Stream.{IsPlain, IsFaithful}
use sipgox.Rtp.Session.{read_rtp}
use sipgox.Rtp.Session.Logger.{
  Summary, LogLine, talking_started, packet_logged, summary_logged, Logging, Log, talks,
  is_summary_due, took_packet, packet_lines, also_logged, logged, log_stream, arrivals, packets_of,
}

abbrev pub logged_packets : List LogLine → List Packet
logged_packets [] = []
logged_packets (talking_started ∷ ls) = logged_packets ls
logged_packets (packet_logged p ∷ ls) = p ∷ logged_packets ls
logged_packets (summary_logged s ∷ ls) = logged_packets ls

abbrev pub talk_count : List LogLine → ℕ
talk_count [] = 0
talk_count (talking_started ∷ ls) = suc (talk_count ls)
talk_count (packet_logged p ∷ ls) = talk_count ls
talk_count (summary_logged s ∷ ls) = talk_count ls

abbrev pub summary_count : List LogLine → ℕ
summary_count [] = 0
summary_count (talking_started ∷ ls) = summary_count ls
summary_count (packet_logged p ∷ ls) = summary_count ls
summary_count (summary_logged s ∷ ls) = suc (summary_count ls)

-- Each packet comes no more than a second after the one before.
abbrev pub IsSteady : ℕ → List (Packet × ℕ) → Type 0
IsSteady last [] = Unit
IsSteady last ((p, now) ∷ ps) = (now ≤ last + 1_000_000_000) × IsSteady now ps

-- No packet comes after the time.
abbrev pub AllBy : ℕ → List (Packet × ℕ) → Type 0
AllBy end [] = Unit
AllBy end ((p, now) ∷ ps) = (now ≤ end) × AllBy end ps

-- What the lines of one packet add.
packet_lines_logged :
    (s : Logging) (now : ℕ) (p : Packet) (more : List LogLine)
    → logged_packets (packet_lines s now p ++ more) ≡ p ∷ logged_packets more
unfolding packet_lines
packet_lines_logged s now p more = ground arith

packet_lines_talk :
    (s : Logging) (now last : ℕ) (p : Packet) (more : List LogLine)
    → s.last_rtp ≡ some last
    → now ≤ last + 1_000_000_000
    → talk_count (packet_lines s now p ++ more) ≡ talk_count more
unfolding packet_lines talks
packet_lines_talk s now last p more e h = ground arith

packet_lines_talk_first :
    (s : Logging) (now : ℕ) (p : Packet) (more : List LogLine)
    → s.last_rtp ≡ none
    → talk_count (packet_lines s now p ++ more) ≡ suc (talk_count more)
unfolding packet_lines talks
packet_lines_talk_first s now p more e = ground arith

-- A summary moves the time of the last summary by more than three seconds.
packet_lines_summary :
    (s : Logging) (now end : ℕ) (p : Packet) (more : List LogLine)
    → s.last_summary ≤ end
    → now ≤ end
    → (took_packet s now p).last_summary + 3_000_000_000 * summary_count more ≤ end
    → s.last_summary + 3_000_000_000 * summary_count (packet_lines s now p ++ more) ≤ end
unfolding packet_lines took_packet is_summary_due
packet_lines_summary s now end p more a b h = ground arith

last_by :
    (s : Logging) (now end : ℕ) (p : Packet)
    → s.last_summary ≤ end
    → now ≤ end
    → (took_packet s now p).last_summary ≤ end
unfolding took_packet
last_by s now end p a b = ground arith

module _ (codec : RtpCodec) (faithful : IsFaithful codec) (e : GoError) (at : ℕ)
    (later : List (Outcome Bytes × ℕ)) where
  -- The log of the packets and the failing read behind them.
  abbrev pub log_of : List (Packet × ℕ) → Logging → Log
  log_of ps s = log_stream codec (arrivals codec ps ++ (err e, at) ∷ later) s

  log_of_step :
      (p : Packet) (now : ℕ) (ps : List (Packet × ℕ)) (s : Logging)
      → IsPlain p
      → (log_of ((p, now) ∷ ps) s).1 ≡ packet_lines s now p ++ (log_of ps (took_packet s now p)).1
  unfolding log_stream logged read_rtp also_logged
  log_of_step p now ps s plain = rw (faithful.marshals p plain, faithful.unmarshals p plain) refl

  log_of_logged :
      (ps : List (Packet × ℕ)) (s : Logging)
      → All IsPlain (packets_of ps)
      → logged_packets (log_of ps s).1 ≡ packets_of ps
  unfolding log_stream logged
  log_of_logged [] s plain = refl
  log_of_logged ((p, now) ∷ ps) s plain =
      ap logged_packets (log_of_step p now ps s plain.0)
      ∙ packet_lines_logged s now p _
      ∙ ap (◌∷◌ p) (log_of_logged ps (took_packet s now p) plain.1)

  log_of_steady :
      (ps : List (Packet × ℕ)) (s : Logging) (last : ℕ)
      → All IsPlain (packets_of ps)
      → s.last_rtp ≡ some last
      → IsSteady last ps
      → talk_count (log_of ps s).1 ≡ 0
  unfolding log_stream logged took_packet
  log_of_steady [] s last plain r steady = refl
  log_of_steady ((p, now) ∷ ps) s last plain r steady =
      ap talk_count (log_of_step p now ps s plain.0)
      ∙ packet_lines_talk s now last p _ r steady.0
      ∙ log_of_steady ps (took_packet s now p) now plain.1 refl steady.1

  log_of_summaries :
      (ps : List (Packet × ℕ)) (s : Logging) (end : ℕ)
      → All IsPlain (packets_of ps)
      → s.last_summary ≤ end
      → AllBy end ps
      → s.last_summary + 3_000_000_000 * summary_count (log_of ps s).1 ≤ end
  unfolding log_stream logged
  log_of_summaries [] s end plain a by = omega (arith, a)
  log_of_summaries ((p, now) ∷ ps) s end plain a by = omega (
    arith,
    ap summary_count (log_of_step p now ps s plain.0),
    packet_lines_summary s now end p (log_of ps (took_packet s now p)).1 a by.0
        (log_of_summaries ps (took_packet s now p) end plain.1 (last_by s now end p a by.0) by.1),
  )

  -- With a codec that is faithful on plain packets, a new logger of a stream of plain packets that ends by a
  -- failing read logs every packet, in the order of their coming; where each comes no more than a second after
  -- the one before, it logs the start of talking exactly once; and it logs no more than one summary for each
  -- three seconds between its start and a time that no packet comes after, so that none is logged of a stream of
  -- less than three seconds.
  pub log_stream-lines :
      (p : Packet) (now start end : ℕ) (ps : List (Packet × ℕ)) (s : Summary)
      → All IsPlain (packets_of ((p, now) ∷ ps))
      → start ≤ end
      → AllBy end ((p, now) ∷ ps)
      → let lines =
          (log_of
            ((p, now) ∷ ps)
            (record { summary = s; last_rtp = none; last_summary = start })).1 in
        (logged_packets lines ≡ packets_of ((p, now) ∷ ps))
        × (IsSteady now ps → talk_count lines ≡ 1)
        × (start + 3_000_000_000 * summary_count lines ≤ end)
  unfolding took_packet
  log_stream-lines p now start end ps s plain ordered by =
      let fresh : Logging = record { summary = s; last_rtp = none; last_summary = start } in
      (
        log_of_logged ((p, now) ∷ ps) fresh plain,
        λ steady.
            ap talk_count (log_of_step p now ps fresh plain.0)
            ∙ packet_lines_talk_first fresh now p _ refl
            ∙ ap suc (log_of_steady ps (took_packet fresh now p) now plain.1 refl steady),
        log_of_summaries ((p, now) ∷ ps) fresh end plain ordered by,
      )
