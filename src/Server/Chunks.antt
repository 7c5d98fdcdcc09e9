-- ===== src/Server/Chunks.antt =====
-- internal/server/server.go: a stream is relayed and read in the same way however it is cut up.
use mathlib.Core.List.{append_assoc, append-nil}
use token_route.Base.{
  ℕ, true, false, ◌≡◌, refl, ap, sym, ◌∙◌, Option, none, List, [], ◌∷◌, ◌++◌, ◌==◌, map,
  if◌then◌else◌, Bool-cases, inl, inr,
}
use token_route.Base.Text.{Text}
use token_route.RetryPolicy.Defs.{is_blank}
use token_route.Usage.Sse.{Usage, Tracker, feed}
use token_route.Server.Stream.{
  Read, Relay, put_code, complete_lines, feed_lines, take_chunk, relay_reads, finished,
  relay_stream,
}

-- Lines that are found in two steps.
abbrev then_lines : List Text × Text → Text → List Text × Text
then_lines found s = let more = complete_lines (found.1 ++ s) in (found.0 ++ more.0, more.1)

put_code-then_lines :
    (c : ℕ) (found : List Text × Text) (s : Text)
    → (c == 10) ≡ false
    → put_code c (then_lines found s) ≡ then_lines (put_code c found) s
unfolding complete_lines
put_code-then_lines c ([], rest) s h = rw h refl
put_code-then_lines c (line ∷ lines, rest) s h = refl

complete_lines-append : (s t : Text) → complete_lines (s ++ t) ≡ then_lines (complete_lines s) t
unfolding complete_lines
complete_lines-append [] t = refl
complete_lines-append (c ∷ s) t = elim (Bool-cases (c == 10)) [
  | inl newline ↦ rw (newline, complete_lines-append s t) refl
  | inr other ↦
      rw (other, complete_lines-append s t) (put_code-then_lines c (complete_lines s) t other)
]

put_code-rest :
    (c : ℕ) (found : List Text × Text)
    → (c == 10) ≡ false
    → complete_lines found.1 ≡ ([], found.1)
    → complete_lines (put_code c found).1 ≡ ([], (put_code c found).1)
unfolding complete_lines
put_code-rest c ([], rest) other h = rw (other, h) refl
put_code-rest c (line ∷ lines, rest) other h = h

-- The remainder has no complete line.
complete_lines-rest : (s : Text) → complete_lines (complete_lines s).1 ≡ ([], (complete_lines s).1)
unfolding complete_lines
complete_lines-rest [] = refl
complete_lines-rest (c ∷ s) = elim (Bool-cases (c == 10)) [
  | inl newline ↦ rw newline (complete_lines-rest s)
  | inr other ↦ rw other (put_code-rest c (complete_lines s) other (complete_lines-rest s))
]

module _ (unmarshal : Text → Option (Option Usage)) where
  feed_lines-append :
      (a b : List Text) (t : Tracker)
      → feed_lines unmarshal (a ++ b) t ≡ feed_lines unmarshal b (feed_lines unmarshal a t)
  unfolding feed_lines
  feed_lines-append [] b t = refl
  feed_lines-append (line ∷ a) b t = feed_lines-append a b (feed unmarshal t line)

  take_chunk-take_chunk :
      (s t : Text) (r : Relay)
      → take_chunk unmarshal t (take_chunk unmarshal s r) ≡ take_chunk unmarshal (s ++ t) r
  unfolding take_chunk
  take_chunk-take_chunk s t r =
      let found = complete_lines (r.pending ++ s) in
      rw
        (
          sym (append_assoc r.pending s t),
          complete_lines-append (r.pending ++ s) t,
          append_assoc r.written s t,
          feed_lines-append found.0 (complete_lines (found.1 ++ t)).0 r.tracker,
        )
        refl

  take_chunk-nil :
      (r : Relay) → complete_lines r.pending ≡ ([], r.pending) → take_chunk unmarshal [] r ≡ r
  unfolding take_chunk feed_lines
  take_chunk-nil r h = rw (append-nil r.pending, append-nil r.written, h) refl

-- A read that could be written and was not the last.
abbrev pub good : Text → Read
good chunk = record { bytes = chunk; write_ok = true; ended = false }

abbrev pub concat : List Text → Text
concat [] = []
concat (chunk ∷ chunks) = chunk ++ concat chunks

-- The lines of a whole stream; the last one may lack its newline.
abbrev pub all_lines : Text → List Text
all_lines s =
    let (lines, rest) = complete_lines s in if is_blank rest then lines else lines ++ (rest ∷ [])

module _ (unmarshal : Text → Option (Option Usage)) where
  relay_reads-take_chunk :
      (chunks : List Text) (r : Relay)
      → complete_lines r.pending ≡ ([], r.pending)
      → relay_reads unmarshal (map good chunks) r ≡ take_chunk unmarshal (concat chunks) r
  unfolding relay_reads take_chunk
  relay_reads-take_chunk [] r h = sym (take_chunk-nil unmarshal r h)
  relay_reads-take_chunk ([] ∷ chunks) r h = relay_reads-take_chunk chunks r h
  relay_reads-take_chunk ((c ∷ chunk) ∷ chunks) r h =
      relay_reads-take_chunk chunks (take_chunk unmarshal (c ∷ chunk) r)
        (complete_lines-rest (r.pending ++ (c ∷ chunk)))
      ∙ take_chunk-take_chunk unmarshal (c ∷ chunk) (concat chunks) r

  abbrev result : Relay → Text × Option Usage
  result r = (r.written, r.tracker)

  finished-result :
      (found : List Text × Text) (w : Text)
      → result (
          finished unmarshal (record {
            written = w;
            pending = found.1;
            tracker = feed_lines unmarshal found.0 none;
          }))
        ≡ (
          w,
          feed_lines unmarshal
              (if is_blank found.1 then found.0 else found.0 ++ (found.1 ∷ []))
              none,
        )
  unfolding feed_lines
  finished-result (lines, []) w = refl
  finished-result (lines, c ∷ rest) w =
      ap (λ t. (w, t)) (sym (feed_lines-append unmarshal lines ((c ∷ rest) ∷ []) none))

  -- Wherever the reads cut the stream, in the middle of a line or with nothing read at all: as long as
  -- the client takes the bytes it gets exactly those of the upstream, and the usage is the one that the
  -- tracker keeps of the lines of the whole stream, the last line included when it has no newline.
  pub relay_stream-all_lines :
      (chunks : List Text)
      → relay_stream unmarshal (map good chunks)
        ≡ (concat chunks, feed_lines unmarshal (all_lines (concat chunks)) none)
  unfolding relay_stream complete_lines take_chunk
  relay_stream-all_lines chunks =
      ap (λ r. result (finished unmarshal r))
        (relay_reads-take_chunk chunks (record { written = []; pending = []; tracker = none }) refl)
      ∙ finished-result (complete_lines (concat chunks)) (concat chunks)
