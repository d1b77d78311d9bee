-- ===== src/Tests/Stream.antt =====
-- Runs of the line readers.
use tailii_host.Prelude.{ℕ, ◌≡◌, refl, List, [], ◌∷◌, length, concat}
use tailii_host.Stream.{new_splitter, pending_bytes, push_all, feed_all}
use tailii_host.Stream.Lines.{complete_lines, open_line, stream_pieces}
use tailii_host.Stream.Splitter.{pending, push_all-eq-complete_lines}
use tailii_host.Stream.Feeder.{feed_all_lossless}

-- "a" | "b\n\nc" | "d\ne"
abbrev three_chunks : List (List ℕ)
three_chunks = (97 ∷ []) ∷ (98 ∷ 10 ∷ 10 ∷ 99 ∷ []) ∷ (100 ∷ 10 ∷ 101 ∷ []) ∷ []

push_all_runs : (push_all new_splitter three_chunks).1 ≡ (97 ∷ 98 ∷ []) ∷ [] ∷ (99 ∷ 100 ∷ []) ∷ []
unfolding push_all new_splitter
push_all_runs = refl

feed_all_runs :
    (feed_all [] three_chunks).1
    ≡ (97 ∷ 98 ∷ 10 ∷ []) ∷ (10 ∷ []) ∷ (99 ∷ 100 ∷ 10 ∷ []) ∷ (101 ∷ []) ∷ []
unfolding feed_all
feed_all_runs = refl

push_all_example :
    ((push_all new_splitter three_chunks).1 ≡ complete_lines [] (concat three_chunks))
    × (pending (push_all new_splitter three_chunks).0 ≡ open_line [] (concat three_chunks))
    × (pending_bytes (push_all new_splitter three_chunks).0
        ≡ length (open_line [] (concat three_chunks)))
push_all_example = push_all-eq-complete_lines three_chunks

feed_all_example :
    (feed_all [] three_chunks ≡ ([], stream_pieces (concat three_chunks)))
    × (concat (feed_all [] three_chunks).1 ≡ concat three_chunks)
feed_all_example = feed_all_lossless three_chunks
