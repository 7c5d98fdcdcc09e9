-- ===== src/Server/Stream.antt =====
-- internal/server/server.go: `relayStream`. Reading and writing may fail: each read comes with whether
-- its bytes could be written, and whether it was the last.
use token_route.Base.{ℕ, Bool, ◌&&◌, not, Option, none, List, [], ◌∷◌, ◌++◌, ◌==◌, if◌then◌else◌}
use token_route.Base.Text.{Text}
use token_route.RetryPolicy.Defs.{is_blank}
use token_route.Usage.Sse.{Usage, Tracker, feed}

pub record Read : Type 0 where
  pub bytes : Text
  pub write_ok : Bool
  pub ended : Bool

pub record Relay : Type 0 where
  pub written : Text
  pub pending : Text
  pub tracker : Tracker

abbrev newline : ℕ
newline = 10

abbrev pub put_code : ℕ → List Text × Text → List Text × Text
put_code c ([], rest) = ([], c ∷ rest)
put_code c (line ∷ lines, rest) = ((c ∷ line) ∷ lines, rest)

-- The loop over the newlines of `pending`: the complete lines, and the remainder.
unfoldable pub complete_lines : Text → List Text × Text
complete_lines [] = ([], [])
complete_lines (c ∷ s) =
    let found = complete_lines s in
    if c == newline then ([] ∷ found.0, found.1) else put_code c found

module _ (unmarshal : Text → Option (Option Usage)) where
  unfoldable pub feed_lines : List Text → Tracker → Tracker
  feed_lines [] t = t
  feed_lines (line ∷ lines) t = feed_lines lines (feed unmarshal t line)

  -- One read that could be written.
  unfoldable pub take_chunk : Text → Relay → Relay
  unfolding complete_lines feed_lines
  take_chunk chunk r =
      let (lines, rest) = complete_lines (r.pending ++ chunk) in
      record { written = r.written ++ chunk; pending = rest; tracker = feed_lines lines r.tracker }

  -- The loop of `relayStream`.
  unfoldable pub relay_reads : List Read → Relay → Relay
  unfolding take_chunk
  relay_reads [] r = r
  relay_reads (read ∷ reads) r =
      let taken = if is_blank read.bytes then r else take_chunk read.bytes r in
      let on = relay_reads reads taken in
      if not (is_blank read.bytes) && not read.write_ok
      then r
      else (if read.ended then taken else on)

  abbrev pub finished : Relay → Relay
  finished r =
      if is_blank r.pending then r else record r { tracker = feed unmarshal r.tracker r.pending }

  -- `relayStream`: what the client got, and the usage that was read off it.
  unfoldable pub relay_stream : List Read → Text × Option Usage
  unfolding relay_reads
  relay_stream reads =
      let r =
        finished (relay_reads reads (record { written = []; pending = []; tracker = none })) in
      (r.written, r.tracker)
