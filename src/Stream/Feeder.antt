-- ===== src/Stream/Feeder.antt =====
-- The relay's line feeder forwards the stream, whole and line by line, however it is cut.
use tailii_host.Prelude.{
  ℕ, zero, suc, ◌<◌, ◌≡◌, refl, sym, ap, ◌∙◌, List, [], ◌∷◌, ◌++◌, map, none, some, arith, ◌==◌,
  nat_eq, length, take, drop, concat, append-nil, append_assoc, eq_nil, Option-cases, Bool-cases,
  inl, inr, concat-append, map-append, if◌then◌else◌, ==_iff,
}
use tailii_host.Stream.{line_feed, index_of, feed_loop, feed, flush, feed_all}
use tailii_host.Stream.Lines.{
  complete_lines, open_line, lines_of_no_feed, lines_of_feed, length-drop_feed,
  complete_lines-append, open_line-append, index_of-open_line, terminate, concat-complete_lines,
  stream_pieces, index_of_cases,
}

take_feed :
    (buf : List ℕ) (idx : ℕ)
    → index_of line_feed buf ≡ some idx
    → take (suc idx) buf ≡ terminate (take idx buf)
take_feed [] idx h = absurd (unfold index_of in ground arith)
take_feed (b ∷ rest) idx h = elim (index_of_cases b rest idx h) [
  | inl (e, z) ↦ rw z (ap (λ (t : ℕ). t ∷ []) ((==_iff b line_feed).0 e))
  | inr (e, (m, f, z)) ↦ rw z (ap (λ (t : List ℕ). b ∷ t) (take_feed rest m f))
]

feed_loop_lem :
    (fuel : ℕ) (buf : List ℕ)
    → length buf < fuel
    → feed_loop fuel buf ≡ (open_line [] buf, map terminate (complete_lines [] buf))
unfolding feed_loop
feed_loop_lem zero buf h = elim h [ ]
feed_loop_lem (suc fuel) buf h = elim (Option-cases (index_of line_feed buf)) [
  | inl e ↦ let all_open = lines_of_no_feed [] buf e in rw (e, feed_loop, all_open.0, all_open.1)
  | inr (idx, e) ↦
      let after = lines_of_feed [] buf idx e in
      let ih =
        feed_loop_lem fuel (drop (suc idx) buf) (omega (arith, length-drop_feed buf idx e)) in
      rw (e, feed_loop, after.0, after.1, ih) (cc (take_feed buf idx e))
]

feed_lem :
    (buf chunk : List ℕ)
    → feed buf chunk
      ≡ (open_line [] (buf ++ chunk), map terminate (complete_lines [] (buf ++ chunk)))
unfolding feed
feed_lem buf chunk = elim (Bool-cases (length buf == 0)) [
  | inl e ↦
      let z : buf ≡ [] = eq_nil buf (ground arith) in
      rw (e, z) (feed_loop_lem (suc (length chunk)) chunk (omega arith))
  | inr e ↦ rw e (feed_loop_lem (suc (length (buf ++ chunk))) (buf ++ chunk) (omega arith))
]

-- An open line changes nothing when it is read again before what follows.
resume :
    (buf rest : List ℕ)
    → index_of line_feed buf ≡ none
    → (complete_lines [] (buf ++ rest) ≡ complete_lines buf rest)
      × (open_line [] (buf ++ rest) ≡ open_line buf rest)
resume buf rest h =
    let all_open = lines_of_no_feed [] buf h in
    (
      complete_lines-append [] buf rest ∙ rw (all_open.0, all_open.1),
      open_line-append [] buf rest ∙ rw all_open.1,
    )

stream_pieces-step :
    (bytes rest : List ℕ)
    → stream_pieces (bytes ++ rest)
      ≡ map terminate (complete_lines [] bytes) ++ stream_pieces (open_line [] bytes ++ rest)
unfolding stream_pieces
stream_pieces-step bytes rest =
    let again =
      resume (open_line [] bytes) rest (index_of-open_line [] bytes (unfold index_of in refl)) in
    rw (again.0, again.1, complete_lines-append [] bytes rest, open_line-append [] bytes rest)
      (simp (map-append, append_assoc))

-- The pieces are the stream, cut.
concat-stream_pieces : (bytes : List ℕ) → concat (stream_pieces bytes) ≡ bytes
unfolding stream_pieces
concat-stream_pieces bytes = elim (Bool-cases (length (open_line [] bytes) == 0)) [
  | inl e ↦
      let z : open_line [] bytes ≡ [] = eq_nil (open_line [] bytes) (ground arith) in
      rw (e, append-nil (map terminate (complete_lines [] bytes)))
        (sym (append-nil _)
          ∙ ap (λ t. concat (map terminate (complete_lines [] bytes)) ++ t) (sym z)
          ∙ concat-complete_lines [] bytes)
  | inr e ↦
      rw (e, concat-append (map terminate (complete_lines [] bytes)) (open_line [] bytes ∷ []))
        (rw (append-nil (open_line [] bytes)) (concat-complete_lines [] bytes))
]

feed_all_lem :
    (buf : List ℕ) (chunks : List (List ℕ))
    → index_of line_feed buf ≡ none
    → feed_all buf chunks ≡ ([], stream_pieces (buf ++ concat chunks))
unfolding feed_all flush
feed_all_lem buf [] h =
    let all_open = lines_of_no_feed [] buf h in
    rw (append-nil buf) (unfold flush stream_pieces in rw (all_open.0, all_open.1) last)
  where
    last : flush buf ≡ ([], (if length buf == 0 then [] else buf ∷ []))
    last = elim (Bool-cases (length buf == 0)) [
      | inl e ↦ rw (e, flush) (ap (λ (t : List ℕ). (t, [])) (eq_nil buf (ground arith)))
      | inr e ↦ rw (e, flush)
    ]
feed_all_lem buf (chunk ∷ chunks) h =
    let bytes = buf ++ chunk in
    let ih =
      feed_all_lem (open_line [] bytes) chunks
        (index_of-open_line [] bytes (unfold index_of in refl)) in
    rw (feed_lem buf chunk, ih, ← append_assoc buf chunk (concat chunks))
      (cc (stream_pieces-step bytes (concat chunks)))

-- Whatever chunks a stream arrives in, the feeder passes on, up to its end, the complete lines with
-- their line feeds, in order, and then the open last line if it is not empty. It holds nothing
-- back, and the bytes it passes on are those of the stream.
pub feed_all_lossless :
    (chunks : List (List ℕ))
    → (feed_all [] chunks ≡ ([], stream_pieces (concat chunks)))
      × (concat (feed_all [] chunks).1 ≡ concat chunks)
feed_all_lossless chunks =
    let run = feed_all_lem [] chunks (unfold index_of in refl) in
    (
      run,
      ap (λ (r : List ℕ × List (List ℕ)). concat r.1) run ∙ concat-stream_pieces (concat chunks),
    )
