-- ===== src/Sdp/Generate.antt =====
-- sdp/utils.go: NTP time and the offer that `GenerateForAudio` writes (rtp_utils.go has the same two
-- functions of NTP time). The clock is a parameter: the Unix seconds that `time.Now` gives.
pub mod Lines
pub mod Offer
use sipgox.Prelude.{
  ℕ, zero, suc, ◌+◌, ◌-◌, ◌%◌, Bool, true, false, List, [], ◌∷◌, ◌++◌, if◌then◌else◌,
}
use sipgox.Prelude.Int.{ℤ, pos, negsuc}
use sipgox.Text.{Text, codes, eq_text, itoa, join}
use sipgox.Ip.{Ip, Ip6Notation, ip_string}

-- `NTPTimestamp`: the sum is an int64, and is read as a uint64.
unfoldable pub ntp_timestamp : ℤ → ℕ
ntp_timestamp (pos n) = (n + 2208988800) % 0x1_0000_0000_0000_0000
ntp_timestamp (negsuc n) =
    (2208988800 + 0x1_0000_0000_0000_0000 - (n + 1)) % 0x1_0000_0000_0000_0000

abbrev pub Mode : Type 0
Mode = Text

abbrev pub mode_recvonly : Mode
mode_recvonly = codes "recvonly"

abbrev pub mode_sendrecv : Mode
mode_sendrecv = codes "sendrecv"

abbrev pub mode_sendonly : Mode
mode_sendonly = codes "sendonly"

-- The `rtpmap` lines of the formats that it knows.
unfoldable pub formats_map : List Text → List Text
formats_map [] = []
formats_map (f ∷ fs) =
    let rest = formats_map fs in
    if eq_text f (codes "0")
    then codes "a=rtpmap:0 PCMU/8000" ∷ rest
    else if eq_text f (codes "8")
    then codes "a=rtpmap:8 PCMA/8000" ∷ rest
    else rest

unfoldable pub generate_for_audio : Ip6Notation → ℤ → Ip → Ip → ℤ → Mode → List Text → Text
unfolding ntp_timestamp formats_map
generate_for_audio v6 now origin_ip connection_ip rtp_port mode fmts =
    let ntp_time = itoa (pos (ntp_timestamp now)) in
    join
      (codes "v=0"
        ∷ (codes "o=user1 "
            ++ (ntp_time ++ (b' ' ∷ (ntp_time ++ (codes " IN IP4 " ++ ip_string v6 origin_ip)))))
        ∷ codes "s=Sip Go Media"
        ∷ (codes "c=IN IP4 " ++ ip_string v6 connection_ip)
        ∷ codes "t=0 0"
        ∷ (codes "m=audio "
            ++ (itoa rtp_port ++ (codes " RTP/AVP " ++ (join fmts (codes " ") ++ codes " 101"))))
        ∷ (codes "a=" ++ mode)
        ∷ codes "a=rtpmap:101 telephone-event/8000"
        ∷ codes "a=fmtp:101 0-16"
        ∷ formats_map fmts)
      (codes "\r\n")
