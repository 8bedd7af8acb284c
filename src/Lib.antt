-- ===== src/Lib.antt =====
-- The core of the voice gateway of this repository, the Go program in gateway/: what happens to a call
-- and to its audio.
--
-- The parts, and how they interact. A call reaches the gateway over a SIP trunk that is authenticated,
-- is routed by the number dialled, may pass a menu driven by key presses, and waits in a queue. The
-- distributor rings agents for the first caller of each queue, the announcer talks to those who wait,
-- and the call control moves calls between queues and agents. Audio comes in and goes out over RTP as
-- G.711, is decoded and resampled, passes a noise gate, is mixed in conferences and saved as WAV.
-- Circuit breakers guard the services that the gateway calls, and the failover manager hands a call to
-- a human when one of them is down. Admission and worker pools bound what it takes on. Supervisors
-- listen to calls or join them, a third party makes a call a conference, and a BYE takes a call out of
-- all of these. An INVITE becomes a session, a listener and an entry of a queue, or, the other way,
-- the gateway dials and waits for the answer; an agent takes a call in the browser and leaves it by a
-- hangup. Speech is cut into utterances or, on a recorded leg, into chunks that are transcribed, and a
-- reply of the model into sentences that are spoken one by one. Webhooks tell other systems what
-- happened. Agents log in with tokens that every request to the HTTP interface carries.
--
-- The files, by the source that they model:
--   Base              numbers, lists, strings as lists of bytes, and Go maps as association lists
--   Audio/Pcm         16-bit samples as bytes, for all of the audio
--   Audio/G711        gateway/codec.go: linearToUlaw, both decode tables, TranscodeFrame,
--                     ResampleG711toL16; G711/Reference is the standard that they are compared with
--   Audio/Mixer       gateway/conference.go: newAudioMixer, mixExcluding, one tick of run
--   Audio/Gate        gateway/agc.go: NoiseGate.Process, generateComfortNoise, the pipeline
--   Audio/Wav         gateway/main.go and gateway/recording.go: buildWAV, stripWAVHeader,
--                     interleaveStereo
--   Audio/Rtp         gateway/rtplistener.go: SendPCM, SendG711, one datagram of ReceiveAndDecode
--   Failover/Breaker  gateway/failover.go: State, Allow, RecordSuccess, RecordFailure
--   Failover/Manager  gateway/failover.go: the three handlers of a failure and transferToHuman
--   Calls/Queue       gateway/queue.go: AddCaller, RemoveCaller, RemoveCallerByCallID, tickWaitTimes;
--                     gateway/queue_announcements.go: getQueuePosition
--   Calls/Distributor gateway/acd.go: scoreAgent, findBestAgent, processQueues, OnCallStart, OnCallEnd
--   Calls/Announcer   gateway/queue_announcements.go: StartAnnouncements, StopAnnouncements, a loop's end
--   Calls/Control     gateway/callcontrol.go and gateway/queue.go: handleCallHold, handleCallResume,
--                     handleCallTransfer, handlePickCall, handleAddToQueue, extractSIPRECCallID
--   Inbound/Dtmf      gateway/dtmf.go: ParseRFC2833 and the collector
--   Inbound/Ivr       gateway/ivr.go: RunIVR, collectDTMF
--   Inbound/Did       gateway/did_routing.go: MatchDID, matchPattern, matchTimeCondition
--   Inbound/SipAuth   gateway/sip_security.go: AuthenticateRequest, findTrunkByIP, digestAuth, nonces
--   Calls/Conference  gateway/conference.go: startConference, dropThirdParty, endConference, the answer of
--                     dialExternalThird; gateway/callcontrol.go: their two handlers
--   Calls/Supervisor  gateway/supervisor.go: monitor, stop, supervisorAudioLoop; gateway/siprec.go: taps
--   Calls/Routing     gateway/routing.go: RouteCall, matchQueue, scoreAgents, parsePostgresArray;
--                     gateway/db.go: arrayToPostgres
--   Sip/Ports         gateway/sipserver.go: allocateRTPPort
--   Sip/Invite        gateway/sipserver.go: how handleInvite authenticates an INVITE
--   Sip/Hangup        gateway/sipserver.go: handleBye
--   Sip/Bodies        gateway/sipserver.go: parseMultipartBody, parseSDPOffer; gateway/siprec_meta.go:
--                     ExtractStreams, BuildContext
--   Sip/Arrival       gateway/sipserver.go: handleInvite after the admission
--   Sip/Answers       gateway/sip_uac.go: how the responses to an INVITE are awaited and read
--   Sip/Dialling      gateway/sip_uac.go: handleOutboundCall, findOutboundTrunk, makeOutboundCall,
--                     dialSIPCall; gateway/siprec.go: getOrCreateSIPRECSession
--   Browser/Leaving   gateway/webrtc.go: handleHangup; gateway/sipserver.go: SendBYE
--   Browser/Speaker   gateway/webrtc.go: what handleBridge sends to an agent
--   Access/Hex        encoding/hex, for the tokens
--   Access/Auth       gateway/auth.go: generateToken, validateToken, Middleware, handleLogin;
--                     gateway/agent_session.go: getUserIDFromRequest
--   Access/Agents     gateway/agent_session.go: handleAgentMe, handleUpdateStatus, handleAgentSSE,
--                     RingAgent
--   Access/Robocall   gateway/robocall.go: the block list, ClassifyTranscript, CombinedScore
--   Speech/Segments   gateway/main.go: sttPipeline
--   Speech/Sentences  gateway/main.go: sentenceEnd, splitSentences
--   Speech/Chunks     gateway/siprec.go: runSTT
--   Speech/Transcripts gateway/main.go: transcribeAndSend, isWhisperHallucination
--   Speech/Pipeline   gateway/main.go: the stages of a session one behind the other
--   Speech/Conversation gateway/main.go: claudeWorker, stripJSONToText; gateway/actions.go: ParseAction,
--                     ExecuteAction, executeAPICall
--   Knowledge/Chunking gateway/rag.go: chunkText
--   Settings          gateway/configstore.go
--   Outbound/Webhooks gateway/webhooks.go: FireEvent, sendWebhook
--   Capacity          gateway/scale.go: AdmissionController and WorkerPool
--
-- State is passed explicitly: an operation takes the record that it changes and returns the new
-- one. A mutex makes a method one step; the admission controller and the circuit breakers have
-- none, so each atomic operation is a step and a schedule interleaves them. The failover manager's
-- handlers use a breaker's methods as wholes, as they run when no other goroutine comes between.
-- The rows of the agents have other writers: these are steps too, which put anything into a row. A
-- pass over the queues reads the clock once, where the source reads it for each queue. A statement
-- or a write of a file that fails is an input, with what it leaves behind. Times are natural
-- numbers of nanoseconds, seconds in the tokens, and a clock that went back counts as no time
-- passed. Integers of a fixed width wrap where the source's do. A string is its list of bytes. A Go
-- map is an association list whose order stands for the order of an iteration.
--
-- Bounds and fuel: the search for the data chunk of a WAV file has as fuel the length of the file, and
-- every round moves on by 8 bytes at least. The menu is bounded by the source itself, at 20 nodes. The
-- sort of the routed agents has as fuel their number, one for each round of its outer loop. The loop
-- over the sentences of a reply has the length of the text as fuel, and each round takes a byte at
-- least (split_from_enough). The pieces of a document need a round for each byte of the text and one
-- more, which is not enough for the chunk sizes 51 to 97, where the code may not end. What an agent
-- hears is cut with as many rounds as it has bytes. Every other loop is a recursion on a list or on a
-- counter of the source.
--
-- Not modelled: sockets, HTTP, SQL, logging and speech services, the SIP and WebRTC stacks, and
-- arithmetic on floats, of which the gain control and the energy of a frame are parameters.
-- Parameters also are sort.Slice, to which the source's comparison is passed, regular expressions,
-- the parsing of JSON, HMAC and SHA-256, the networks of an access list, the rows of the database,
-- random numbers and the clock, and how a peer connection of WebRTC comes off. The filter computes
-- with floats of which nothing is assumed but what a theorem says. White space and letters in upper
-- case are those of ASCII. The libraries for SDP and XML, how a write of the settings comes off,
-- the replies of the model and the answers of other systems are parameters too; a connection is the
-- list of datagrams that are read of it. Call control, conferences and the SIP server take the
-- gateway's parts as configured.
pub mod Base
pub mod Audio
pub mod Failover
pub mod Calls
pub mod Inbound
pub mod Capacity
pub mod Access
pub mod Sip
pub mod Speech
pub mod Outbound
pub mod Knowledge
pub mod Browser
pub mod Settings
