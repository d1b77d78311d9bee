-- ===== src/Stream.antt =====
-- The NDJSON line readers: `NdjsonLineSplitter` (src/shared/lineSplitter.ts) and `makeLineFeeder`
-- (src/approval/broker.ts). A Buffer is a list of bytes. Both loops read the chunk from the left;
-- the loop variable is what `chunk.subarray(offset)` and `buf.subarray(idx + 1)` leave, and the
-- fuel is one round for each byte and one more (`push` and `feed` give that much).
pub mod Lines
pub mod Splitter
pub mod Feeder
use mathlib.Core.Option
use tailii_host.Prelude.{
  ℕ, zero, suc, ◌+◌, ◌-◌, Bool, List, [], ◌∷◌, ◌++◌, Option, none, some, ◌==◌, nat_eq,
  if◌then◌else◌, length, take, drop, replicate, concat,
}

-- `0x0a`, the line feed.
abbrev pub line_feed : ℕ
line_feed = 10

-- `buf.indexOf(byte)`; `none` is -1.
pub index_of : ℕ → List ℕ → Option ℕ
index_of byte [] = none
index_of byte (b ∷ bs) =
    let later = Option.map suc (index_of byte bs) in if b == byte then some 0 else later

-- `Buffer.concat(parts, totalLength)`: cut, or filled with zeros, to the length given.
pub buffer_concat : List (List ℕ) → ℕ → List ℕ
buffer_concat parts total = take total (concat parts) ++ replicate (total - length (concat parts)) 0

-- The fields of `NdjsonLineSplitter`.
pub record LineSplitter : Type 0 where
  pub parts : List (List ℕ)
  pub bytes : ℕ

unfoldable pub new_splitter : LineSplitter
new_splitter = record { parts = []; bytes = 0 }

-- The body of the loop of `push` up to `onLine(line)`: the line that `suffix` completes.
pub complete_line : LineSplitter → List ℕ → LineSplitter × List ℕ
complete_line s suffix = if s.bytes == 0 then (s, suffix) else (
  record { parts = []; bytes = 0 },
  buffer_concat (s.parts ++ suffix ∷ []) (s.bytes + length suffix),
)

-- The rest of the chunk, after its last line feed, joins the pending parts.
pub keep_rest : LineSplitter → List ℕ → LineSplitter
keep_rest s rest =
    if length rest == 0
    then s
    else record { parts = s.parts ++ rest ∷ []; bytes = s.bytes + length rest }

-- The loop of `push`; the second result lists the calls of `onLine` in order.
pub push_loop : ℕ → LineSplitter → List ℕ → LineSplitter × List (List ℕ)
push_loop zero s rest = (s, [])
push_loop (suc fuel) s rest = elim (index_of line_feed rest) [
  | none ↦ (keep_rest s rest, [])
  | some nl ↦
      let (closed, line) = complete_line s (take nl rest) in
      let (final, lines) = push_loop fuel closed (drop (suc nl) rest) in (final, line ∷ lines)
]

pub push : LineSplitter → List ℕ → LineSplitter × List (List ℕ)
unfolding push_loop complete_line keep_rest buffer_concat index_of
push s chunk = push_loop (suc (length chunk)) s chunk

-- `pendingBytes`.
pub pending_bytes : LineSplitter → ℕ
pending_bytes s = s.bytes

-- A socket's chunks, one `data` event each.
unfoldable pub push_all : LineSplitter → List (List ℕ) → LineSplitter × List (List ℕ)
unfolding push
push_all s [] = (s, [])
push_all s (chunk ∷ chunks) =
    let (next, lines) = push s chunk in
    let (final, more) = push_all next chunks in (final, lines ++ more)

-- `makeLineFeeder`: the state is `buf`, and `onLine` gets each line with its line feed.
pub feed_loop : ℕ → List ℕ → List ℕ × List (List ℕ)
feed_loop zero buf = (buf, [])
feed_loop (suc fuel) buf = elim (index_of line_feed buf) [
  | none ↦ (buf, [])
  | some idx ↦
      let (final, lines) = feed_loop fuel (drop (suc idx) buf) in
      (final, take (suc idx) buf ∷ lines)
]

pub feed : List ℕ → List ℕ → List ℕ × List (List ℕ)
unfolding feed_loop index_of
feed buf chunk =
    let joined = if length buf == 0 then chunk else buf ++ chunk in
    feed_loop (suc (length joined)) joined

pub flush : List ℕ → List ℕ × List (List ℕ)
flush buf = if length buf == 0 then (buf, []) else ([], buf ∷ [])

-- Every chunk of a stream, then its end.
unfoldable pub feed_all : List ℕ → List (List ℕ) → List ℕ × List (List ℕ)
unfolding feed flush
feed_all buf [] = flush buf
feed_all buf (chunk ∷ chunks) =
    let (next, lines) = feed buf chunk in
    let (final, more) = feed_all next chunks in (final, lines ++ more)
