-- ===== src/Lib.antt =====
-- SkyEye is an automated GCI controller for DCS World. It hears players on SimpleRadio Standalone
-- (SRS), tracks aircraft by Tacview telemetry, and answers and warns by voice. This library models
-- the parts of it that keep state and decide:
--
--   Radio        pkg/simpleradio: the voice packet's codec (voice/packet.go, NewVoicePacket, Encode
--                and Decode), the receiver of each radio (receive.go), the peers and the messages
--                of the server (message.go, sync.go, net.go's receiveTCP), the counts of
--                clients on frequency (frequency.go), and the voice encoder and decoder with the
--                transmitter (voice.go, transmit.go, frame.go).
--   Trackfiles   pkg/trackfiles/trackfile.go: a contact and its last frames.
--   Radar        pkg/radar: the contact database with its index of callsigns (contacts.go), the
--                scope's handlers of updates, starts and garbage collection (radar.go, started.go),
--                the groups (grouping.go, group.go), the merges that it reports
--                (merged.go), the fades (faded.go), the threats (threat.go), the searches around a
--                point and for the nearest contact (nearby.go, nearest.go), and the picture
--                (picture.go).
--   Controller   pkg/controller: the merge tracker (merged.go), the threat cooldowns and calls
--                (threat.go), the callbacks (callbacks.go), pictures (picture.go) and the handlers
--                of all requests (bogeydope.go, declare.go, snaplock.go, spiked.go and those that
--                only look a callsign up).
--   Encyclopedia pkg/encyclopedia/aircraft.go: the table of aircraft and its lookup.
--   Brevity      pkg/brevity: the words of calls.
--   Application  internal/application (control.go, parse.go): from a text to the controller's answer.
--   Parser       pkg/parser: the normalisation of a text (parser.go, alternates.go), the words of
--                the request and of the wake phrase, and the arguments of each request (spatial.go,
--                declare.go, bogeydope.go, snaplock.go, spiked.go).
--   Tacview      pkg/tacview: the coordinates of an object (types/coordinate.go), its properties
--                (types/object.go), the lines of the stream (types/metadata.go), and the client:
--                its state, the loop that handles the lines, and the updates that it sends
--                (client/client.go).
--   Composer     pkg/composer/format.go: how numbers are said.
--   Scaler       cmd/skyeye-scaler/main.go: when the autoscaler asks to run or to stop.
--   Interfaces   what each part takes from another, filled.
--   Coalitions, Common  pkg/coalitions, and what the parts share.
--
-- The Tacview client's updates and fades reach the radar (Interfaces.Tracks), whose database the
-- controller reads through Controller.Radar's record Units (FindUnit), and both take callsigns from
-- the parser. The radar calls the controller back when a group fades or a contact is removed.
--
-- A handler is a function from the state before to the state after and what it emits; a loop over a
-- channel is a function over the list of its events, each with the time that the clock shows. Locks
-- are not modelled: a handler runs as one step, as it does under its lock. A Go map is an
-- association list in the order of a range loop, and no theorem depends on the order. A panic is
-- none. A float64 is its bit pattern; the arithmetic on them, distances on the globe, the aircraft
-- encyclopedia (as the radar sees it), unicode, the similarity of strings and the numbers of a text
-- are parameters (Radio.Types.Float64, Radio.Voice.Opus, Radar.Grouping.Sensors,
-- Radar.Database.Names, Radar.Nearby's Globe and Sort, Controller.Requests' Geometry,
-- Parser.Scanner.Language, Tacview.Coordinates.Floats and Tacview.Lines.Formats), with what the
-- code relies on as their laws. Controller.Radar's Units and Audience and the callsigns of
-- Radar.Database's Names are interfaces between the parts: Interfaces fills them with the scope's
-- database, the radio client and the parser. The word "mile" is a nautical mile.
--
-- The recursion of addNearbyAircraftToGroup is on fuel, one more than the number of contacts: a
-- call adds a contact of the database that the group lacks, so that it is deep enough, which the
-- closure theorem shows. The loop of parseDeclare is on fuel as well, since it need not end: the
-- model returns none where it has not ended, and more turns than the text has words are enough for
-- every text on which it does end. The loop of encodeVoice has the length of the audio as its fuel,
-- which its theorem on frames shows to be enough, and PronounceInt one more than its argument,
-- which it divides by ten. Every other loop is structural.
--
-- Not modelled: the network connections, the speech recogniser and synthesizer, audio, the command
-- line and its configuration, the texts that the composer makes around its numbers, and the
-- bearings, ranges and aspects of brevity calls.
pub mod Application
pub mod Brevity
pub mod Coalitions
pub mod Common
pub mod Composer
pub mod Controller
pub mod Encyclopedia
pub mod Interfaces
pub mod Parser
pub mod Radar
pub mod Radio
pub mod Scaler
pub mod Tacview
pub mod Trackfiles
