-- ===== src/Stream/Splitter.antt =====
-- The splitter delivers exactly the lines of the stream, however it is cut into chunks.
use tailii_host.Prelude.{
  ℕ, zero, suc, ◌-◌, replicate, ◌+◌, ◌<◌, ◌≡◌, refl, sym, ap, ◌∙◌, List, [], ◌∷◌, ◌++◌, arith, ◌==◌,
  nat_eq, length, take, drop, concat, take_all, length-append, concat-append, append-nil, eq_nil,
  Option-cases, Bool-cases, inl, inr,
}
use tailii_host.Stream.{
  line_feed, index_of, buffer_concat, LineSplitter, new_splitter, complete_line, keep_rest,
  push_loop, push, pending_bytes, push_all,
}
use tailii_host.Stream.Lines.{
  complete_lines, open_line, lines_of_no_feed, lines_of_feed, length-drop_feed,
  complete_lines-append, open_line-append,
}

-- `bytes` counts the pending bytes.
abbrev pub IsCounted : LineSplitter → Type 0
IsCounted s = s.bytes ≡ length (concat s.parts)

-- The bytes that wait for a line feed.
abbrev pub pending : LineSplitter → List ℕ
pending s = concat s.parts

take_all_fill :
    (xs : List ℕ) (n : ℕ) → n ≡ length xs → take n xs ++ replicate (n - length xs) 0 ≡ xs
take_all_fill xs n h =
    rw (h, take_all xs) (let e : length xs - length xs ≡ 0 = omega arith in rw e (append-nil xs))

-- `Buffer.concat` with the right length joins the parts.
buffer_concat_exact :
    (parts : List (List ℕ)) (n : ℕ)
    → n ≡ length (concat parts)
    → buffer_concat parts n ≡ concat parts
unfolding buffer_concat
buffer_concat_exact parts n h = take_all_fill (concat parts) n h

concat_snoc : (parts : List (List ℕ)) (xs : List ℕ) → concat (parts ++ xs ∷ []) ≡ concat parts ++ xs
concat_snoc parts xs = simp (concat-append, append-nil)

length-concat_snoc :
    (parts : List (List ℕ)) (xs : List ℕ)
    → length (concat (parts ++ xs ∷ [])) ≡ length (concat parts) + length xs
length-concat_snoc parts xs = rw (concat_snoc parts xs) (length-append (concat parts) xs)

complete_line_lem :
    (s : LineSplitter) (suffix : List ℕ)
    → IsCounted s
    → ((complete_line s suffix).1 ≡ pending s ++ suffix)
      × (pending (complete_line s suffix).0 ≡ [])
      × IsCounted (complete_line s suffix).0
unfolding complete_line
complete_line_lem s suffix c = elim (Bool-cases (s.bytes == 0)) [
  | inl e ↦
      let z : concat s.parts ≡ [] = eq_nil (concat s.parts) (ground arith) in
      rw e (rw z (refl, refl, ground arith))
  | inr e ↦ rw e (
    buffer_concat_exact (s.parts ++ suffix ∷ []) (s.bytes + length suffix)
          (omega (arith, length-concat_snoc s.parts suffix))
        ∙ concat_snoc s.parts suffix,
    refl,
    refl,
  )
]

keep_rest_lem :
    (s : LineSplitter) (rest : List ℕ)
    → IsCounted s
    → (pending (keep_rest s rest) ≡ pending s ++ rest) × IsCounted (keep_rest s rest)
unfolding keep_rest
keep_rest_lem s rest c = elim (Bool-cases (length rest == 0)) [
  | inl e ↦
      let z : rest ≡ [] = eq_nil rest (ground arith) in
      rw e (rw (z, append-nil (concat s.parts)) refl, c)
  | inr e ↦ rw e (concat_snoc s.parts rest, omega (arith, length-concat_snoc s.parts rest))
]

abbrev Delivers : List ℕ → List ℕ → LineSplitter × List (List ℕ) → Type 0
Delivers before bytes r =
    (r.1 ≡ complete_lines before bytes) × (pending r.0 ≡ open_line before bytes) × IsCounted r.0

push_loop-Delivers :
    (fuel : ℕ) (s : LineSplitter) (rest : List ℕ)
    → length rest < fuel
    → IsCounted s
    → Delivers (pending s) rest (push_loop fuel s rest)
unfolding push_loop
push_loop-Delivers zero s rest h c = elim h [ ]
push_loop-Delivers (suc fuel) s rest h c = elim (Option-cases (index_of line_feed rest)) [
  | inl e ↦
      let none_left = lines_of_no_feed (pending s) rest e in
      let kept = keep_rest_lem s rest c in
      rw (e, push_loop) (sym none_left.0, kept.0 ∙ sym none_left.1, kept.1)
  | inr (nl, e) ↦
      let closed = complete_line_lem s (take nl rest) c in
      let after = lines_of_feed (pending s) rest nl e in
      let ih =
        push_loop-Delivers fuel (complete_line s (take nl rest)).0 (drop (suc nl) rest)
          (omega (arith, length-drop_feed rest nl e)) closed.2 in
      rw (e, push_loop) (cc (closed.0, closed.1, after.0, ih.0), cc (closed.1, after.1, ih.1), ih.2)
]

push-Delivers :
    (s : LineSplitter) (chunk : List ℕ) → IsCounted s → Delivers (pending s) chunk (push s chunk)
unfolding push
push-Delivers s chunk c = push_loop-Delivers (suc (length chunk)) s chunk (omega arith) c

push_all-Delivers :
    (s : LineSplitter) (chunks : List (List ℕ))
    → IsCounted s
    → Delivers (pending s) (concat chunks) (push_all s chunks)
unfolding push_all complete_lines open_line
push_all-Delivers s [] c = (refl, refl, c)
push_all-Delivers s (chunk ∷ chunks) c =
    let (lines, left, counted) = push-Delivers s chunk c in
    let (more, last, counted') = push_all-Delivers (push s chunk).0 chunks counted in
    (
      cc (lines, left, more, complete_lines-append (pending s) chunk (concat chunks)),
      cc (left, last, open_line-append (pending s) chunk (concat chunks)),
      counted',
    )

-- However a stream is cut into chunks, a new splitter delivers exactly the complete lines of the
-- whole stream, in order; the bytes it then holds are the open last line, and `pendingBytes`
-- is their number.
pub push_all-eq-complete_lines :
    (chunks : List (List ℕ))
    → ((push_all new_splitter chunks).1 ≡ complete_lines [] (concat chunks))
      × (pending (push_all new_splitter chunks).0 ≡ open_line [] (concat chunks))
      × (pending_bytes (push_all new_splitter chunks).0 ≡ length (open_line [] (concat chunks)))
unfolding new_splitter pending_bytes
push_all-eq-complete_lines chunks =
    let (lines, left, counted) = push_all-Delivers (record { parts = []; bytes = 0 }) chunks refl in
    (lines, left, counted ∙ ap length left)
