-- ===== src/Lib.antt =====
-- sipgox: the media and session half of a SIP user agent in Go.
--
-- A call has a media session (media.go): two UDP sockets, one for RTP and one for RTCP on the port
-- above, a remote address, and the list of formats that are negotiated by session descriptions (sdp/).
-- RTP packets are written by an RTPWriter (rtp_writer.go) and read by an RTPReader (rtp_reader.go),
-- which both count by an extended sequence number (rtp_sequencer.go); rtp_parse.go takes packets
-- apart. Telephone keys travel as events (media.go). A dialog (dialog_server.go, dialog_client.go)
-- carries a media session and sends the requests within a call; phone.go sets calls up and
-- register_transaction.go registers the user agent.
--
-- The modules and what they model:
--   Sequencer     rtp_sequencer.go: InitSeq, UpdateSeq, ReadExtendedSeq, NextSeqNumber
--   Dtmf          media.go, from dtmfEventMapping on: RTPDTMFEncode, DTMFEncode, DTMFDecode
--   Sdp           sdp/sdp.go: Unmarshal and nextLine; Sdp.Media: MediaDescription,
--                 ConnectionInformation and sdp/formats.go; Sdp.Generate: sdp/utils.go
--   MediaSession  media.go: SetRemoteAddr, LocalSDP, RemoteSDP, UpdateDestinationSDP, updateFormats;
--                 MediaSession.Select: selectFormats
--   Ports         media.go: NewMediaSession, createListeners, listenRTPandRTCP, Close; Ports.Probe:
--                 createListeners2
--   Rtp           rtp_parse.go: rtpUnmarshal; Rtp.Writer: rtp_writer.go and WriteRTP; Rtp.Reader:
--                 rtp_reader.go; Rtp.Session: ReadRTP, readRTPNoAlloc and the Echo of dialog_server.go;
--                 Rtp.Session.Client: the Echo of dialog_client.go; Rtp.Session.Logger: media_stream.go;
--                 Rtp.Dummy: rtp_utils.go
--   Rtcp          rtp_parse.go: rtcpUnmarshal; media.go: ReadRTCP, WriteRTCP, WriteRTCPs
--   Sip           the messages of the package sipgo, a parameter, and getResponse of phone.go
--   Registration  register_transaction.go, and Register and register of phone.go
--   Answer        phone.go, answer: the variables that its handlers share; Answer.Authorize and Answer.Call:
--                 the two halves of the handler of INVITE; Answer.Handlers: the handlers and what answer
--                 returns; Answer.Start: its listeners, its registration and stopAnswer; Answer.Start.Finish:
--                 the ends of Answer and AnswerWithCode, and Close of dialog_server.go; Answer.Start.Whole:
--                 answer as a whole
--   Listeners     phone.go: getInterfaceHostPort, getInterfaceAddr, createServerListener(s); utils.go:
--                 resolveHostIPWithTarget, FindFreeInterfaceHostPort, findFreePort
--   Phone         phone.go: NewPhone and its options, logFormats; Phone.Register: the start of Register
--   Dial          phone.go: dial and dialWaitAnswer, and Dial from its media on; Dial.Whole: Dial with its
--                 interface; Dial.Refer: the handler of REFER in Dial
--   Dialog        dialog_server.go: UACRequestBuild, UASRequestBuild, Refer, Notify; dialog_client.go:
--                 Refer
--   EchoMe        echome: the loops of echouas/main.go and of echouac/main.go
--   Uri           utils.go: CheckLazySipUri
--   Text, Ip      the functions of Go's strings, strconv and net that these call, on bytes
--   Outcome       how a Go function ends: a value, an error or a panic, and `diverges` for a loop that
--                 has used up its fuel or that never ends
--   Prelude       shared names and lemmas
--   Tests         runs on concrete input
-- The other modules hold the proofs, and are named for what they are about.
--
-- A method that changes its receiver returns the receiver as it then is. Go's fixed-width integers are
-- natural numbers whose wrap-around is written out; `int` has 64 bits, which `atoi` clamps to. Fuel:
-- the loop of Unmarshal has one round more than its input has bytes, the search for ports one round
-- for each port up to the limit, printing a number one round more than the number. SendDummyRTP runs for
-- a number of rounds, and goes on behind them.
--
-- The handlers of answer run one at a time, each to its end; what ends a wait within one, and how a
-- handler and answer race for the variable that they share, is given from outside. The qualifying loop
-- runs over the list of its ticks.
--
-- A datagram is cut to the buffer that it is read into: the caller's in RTPReader.Read, 1600 bytes in
-- ReadRTCP and, in EchoMe, in ReadRTP; elsewhere what a read gives is what came into the buffer.
--
-- Parameters, with what the proofs rely on: the notation of IPv6 addresses (nothing is relied on); the
-- sockets of the system (Ports.Pair: a refused listen changes nothing, closing undoes a listen, a
-- socket has the port that was asked for; Listeners.Free: the like of sockets for streams); the codecs
-- of pion/rtp and pion/rtcp (Rtp.Reader.Stream, Rtcp.Compound: what is marshalled is unmarshalled as
-- it was, and a packet without extensions has a header of 12 bytes); the messages of sipgo (Registration.Nat: a request has the contact that was put in, and
-- sending keeps it); the digest of credentials; the addresses of the system; the clock; the random
-- words; what reads and writes of a connection give; the packetizer of pion/rtp (Rtp.Dummy: its packets
-- carry a payload whole).
--
-- Not modelled: what a listener serves, the servers and clients of sipgo but for their errors, and the
-- error of NewClient that Register drops; deadlines, logging but for media_stream.go and the two lines of
-- echouac, the ticker of the writer and pools of buffers; the flags, the setup and the signals of the
-- programs under echome/; Hangup and Bye, which pass on to sipgo, as does the BYE handler of Dial; the text
-- of a telephone event. The closing of the listeners by stopAnswer is not interleaved with the handlers.
-- Whitespace is that of ASCII.
pub mod Prelude
pub mod Text
pub mod Outcome
pub mod Ip
pub mod Sequencer
pub mod Dtmf
pub mod EchoMe
pub mod Sdp
pub mod MediaSession
pub mod Ports
pub mod Rtp
pub mod Rtcp
pub mod Sip
pub mod Registration
pub mod Answer
pub mod Dial
pub mod Listeners
pub mod Phone
pub mod Dialog
pub mod Uri
mod Tests
