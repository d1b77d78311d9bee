-- ===== src/Lib.antt =====
-- tailii-host is the daemon and command-line program that keeps Claude Code and Codex sessions running
-- on a Mac, in tmux or herdr, and relays them to a phone. This library models the parts that decide
-- whether a session lives, the readers of its byte streams, and the protocol of its control connection.
--
-- The parts and their files:
--   Prelude (Lists, Maps, Text, Tests): tests into Bool, lists over the native numbers, association
--     lists for maps, and strings as lists of character codes.
--   Json: what `JSON.parse` gives, with numbers that are natural or not finite.
--   Stream: `NdjsonLineSplitter` of src/shared/lineSplitter.ts and `makeLineFeeder` of
--     src/approval/broker.ts. The callback's calls are the list of lines that a call returns.
--     Lines is the reference: the lines of a whole stream. The loops have fuel for one round for each
--     byte and one more, which the equivalence theorems show to be enough.
--   Heartbeat: src/sessions/heartbeat.ts. A directory is a map from names to parsed files
--     (`read_heartbeat`, `write_heartbeat`, `bump_heartbeat`, `remove_heartbeat`,
--     `list_heartbeat_sessions`); `none` where a write throws. Codec holds the checks of the reader
--     and what is written.
--   LocalServers: `processBelongsToPane` and `isAgentListener` of src/hub/localServerProcesses.ts. The
--     climb has fuel for one round for each entry of the table and two more.
--   LiveStatus: the parser and the matching of src/sessions/claudeLiveStatus.ts.
--   Reaper: src/hub/reaper.ts, which uses all of the above. Judge is `judge` of `reaperTick`, in levels
--     that follow the order of its tests; Alive is `claudeKeepAliveReason`; Tick is `reaperTick`. What
--     the tick observes of the machine (`TickInput`, `Pane`) is an argument; a session's pane holds
--     two functions that say what other processes write while `judge` waits. `World` is what it
--     changes. Reservations, Kept and Apart say apart from the code when a Claude has no reason to be
--     kept and when no server belongs to a session; Safety and Keeping are stated with them.
--   Cron: src/sessions/cronSchedule.ts. Its root parses the fields; Search is `parseCron`, `dayMatches` and
--     `nextCronFireMs`, whose loops count the rounds of the source (1500 days, 24 hours, 60
--     minutes) and whose `Date` is a parameter, `Calendar`; Stop is `scheduledFromSessionCrons`.
--     Bounds and Renewal are about how long what it records protects a session.
--     A range is marked with one round of fuel for each value from its start to its end.
--   Wire: src/protocol/common.ts, decode.ts, encode.ts and messages.ts. Values has what JSON can hold, and
--     `canonicalize`. Kinds, Readers, Arrays, Objects, Trim and Choices are `requireString` and the
--     other readings of a property, each with the type that it promises (Shapes) and the law that
--     what it gave is read again as it was; Parts and Pairs make object literals of them. Messages
--     has the literal of each `case`, Table the `switch`, Decode `decodeControlMessage`, Encode
--     `encodeControlMessage`; Types has the declared types, one for each member of
--     `ControlMessage`, and Fits says when one type is part of another. `JSON.parse` and
--     `JSON.stringify` are parameters, and so is the type of a line. Of an error there is the
--     reason. An object's first property of a name is the one that counts.
--   Tests: runs and instances of the theorems.
--
-- Not modelled: log lines, failures of the file system (a write, a rename or a removal that fails, a
-- temporary file left behind), the renaming of herdr tabs, times that are not
-- whole numbers, and the rest of the program (the hub's sessions, the engine, chat
-- tailing, push notifications and the services).
pub mod Prelude
pub mod Json
pub mod Stream
pub mod Heartbeat
pub mod LocalServers
pub mod LiveStatus
pub mod Reaper
pub mod Cron
pub mod Wire
mod Tests
