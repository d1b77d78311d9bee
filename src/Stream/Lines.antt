-- ===== src/Stream/Lines.antt =====
-- What a stream of bytes says, read byte by byte: its complete lines, and the line still open.
-- The line readers of Stream.antt are compared with it.
use tailii_host.Prelude.{
  map, concat, ==_iff, ℕ, suc, ◌<◌, ◌≡◌, refl, sym, ap, ◌∙◌, true, false, List, [], ◌∷◌, ◌++◌, none,
  some, arith, ◌==◌, nat_eq, if◌then◌else◌, length, take, drop, All, append-nil, append_assoc,
  Option-cases, Bool-cases, ◌⊎◌, inl, inr,
}
use tailii_host.Stream.{line_feed, index_of}

-- The lines, without their line feeds, that `bytes` completes after the open line `cur`.
unfoldable pub complete_lines : List ℕ → List ℕ → List (List ℕ)
complete_lines cur [] = []
complete_lines cur (b ∷ bytes) =
    let closed = complete_lines [] bytes in
    let longer = complete_lines (cur ++ b ∷ []) bytes in
    if b == line_feed then cur ∷ closed else longer

-- The line left open after `bytes`.
unfoldable pub open_line : List ℕ → List ℕ → List ℕ
open_line cur [] = cur
open_line cur (b ∷ bytes) =
    let closed = open_line [] bytes in
    let longer = open_line (cur ++ b ∷ []) bytes in if b == line_feed then closed else longer

abbrev pub HasNoFeed : List ℕ → Type 0
HasNoFeed xs = All (λ b. (b == line_feed) ≡ false) xs

pub complete_lines-append :
    (cur xs ys : List ℕ)
    → complete_lines cur (xs ++ ys) ≡ complete_lines cur xs ++ complete_lines (open_line cur xs) ys
unfolding complete_lines open_line
complete_lines-append cur [] ys = refl
complete_lines-append cur (b ∷ xs) ys = elim (Bool-cases (b == line_feed)) [
  | inl e ↦ rw e (ap (λ t. cur ∷ t) (complete_lines-append [] xs ys))
  | inr e ↦ rw e (complete_lines-append (cur ++ b ∷ []) xs ys)
]

pub open_line-append :
    (cur xs ys : List ℕ) → open_line cur (xs ++ ys) ≡ open_line (open_line cur xs) ys
unfolding open_line
open_line-append cur [] ys = refl
open_line-append cur (b ∷ xs) ys = elim (Bool-cases (b == line_feed)) [
  | inl e ↦ rw e (open_line-append [] xs ys)
  | inr e ↦ rw e (open_line-append (cur ++ b ∷ []) xs ys)
]

-- With no line feed ahead there is no line, and all that is left stays open.
pub lines_of_no_feed :
    (cur rest : List ℕ)
    → index_of line_feed rest ≡ none
    → (complete_lines cur rest ≡ []) × (open_line cur rest ≡ cur ++ rest)
unfolding complete_lines open_line index_of
lines_of_no_feed cur [] h = (refl, sym (append-nil cur))
lines_of_no_feed cur (b ∷ rest) h = elim (Bool-cases (b == line_feed)) [
  | inl e ↦ absurd (ground arith)
  | inr e ↦
      let ih = lines_of_no_feed (cur ++ b ∷ []) rest (ground arith) in
      rw e (ih.0, ih.1 ∙ append_assoc cur (b ∷ []) rest)
]

-- The first line feed is the head, or it is one further than the tail's.
pub index_of_cases :
    (b : ℕ) (rest : List ℕ) (nl : ℕ)
    → index_of line_feed (b ∷ rest) ≡ some nl
    → (((b == line_feed) ≡ true) × (nl ≡ 0))
      ⊎ (((b == line_feed) ≡ false) × ((m : ℕ) × (index_of line_feed rest ≡ some m) × (nl ≡ suc m)))
unfolding index_of
index_of_cases b rest nl h = elim (Bool-cases (b == line_feed)) [
  | inl e ↦ inl (e, ground arith)
  | inr e ↦ elim (Option-cases (index_of line_feed rest)) [
    | inl n ↦ absurd (ground arith)
    | inr q ↦ inr (e, (q.0, q.1, ground arith))
  ]
]

-- Up to its first line feed the rest completes the open line.
pub lines_of_feed :
    (cur rest : List ℕ) (nl : ℕ)
    → index_of line_feed rest ≡ some nl
    → (complete_lines cur rest ≡ (cur ++ take nl rest) ∷ complete_lines [] (drop (suc nl) rest))
      × (open_line cur rest ≡ open_line [] (drop (suc nl) rest))
unfolding complete_lines open_line
lines_of_feed cur [] nl h = absurd (unfold index_of in ground arith)
lines_of_feed cur (b ∷ rest) nl h = elim (index_of_cases b rest nl h) [
  | inl (e, z) ↦ rw (e, z) (rw (append-nil cur) (refl, refl))
  | inr (e, (m, f, z)) ↦
      let ih = lines_of_feed (cur ++ b ∷ []) rest m f in
      rw (e, z)
        (
          ih.0
              ∙ ap (λ (l : List ℕ). l ∷ complete_lines [] (drop (suc m) rest))
                  (append_assoc cur (b ∷ []) (take m rest)),
          ih.1,
        )
]

-- What follows the line feed is shorter.
pub length-drop_feed :
    (rest : List ℕ) (nl : ℕ)
    → index_of line_feed rest ≡ some nl
    → length (drop (suc nl) rest) < length rest
length-drop_feed [] nl h = absurd (unfold index_of in ground arith)
length-drop_feed (b ∷ rest) nl h = elim (index_of_cases b rest nl h) [
  | inl (e, z) ↦ rw z (omega arith)
  | inr (e, (m, f, z)) ↦ rw z (omega (arith, length-drop_feed rest m f))
]

index_of-append_none :
    (xs ys : List ℕ)
    → index_of line_feed xs ≡ none
    → index_of line_feed ys ≡ none
    → index_of line_feed (xs ++ ys) ≡ none
unfolding index_of
index_of-append_none [] ys h k = k
index_of-append_none (x ∷ xs) ys h k = elim (Bool-cases (x == line_feed)) [
  | inl e ↦ absurd (ground arith)
  | inr e ↦ let ih = index_of-append_none xs ys (ground arith) k in rw (e, ih)
]

-- The open line holds no line feed.
pub index_of-open_line :
    (cur xs : List ℕ) → index_of line_feed cur ≡ none → index_of line_feed (open_line cur xs) ≡ none
unfolding open_line
index_of-open_line cur [] h = h
index_of-open_line cur (b ∷ xs) h = elim (Bool-cases (b == line_feed)) [
  | inl e ↦ rw e (index_of-open_line [] xs (unfold index_of in refl))
  | inr e ↦ rw e (
      index_of-open_line (cur ++ b ∷ []) xs
        (index_of-append_none cur (b ∷ []) h (unfold index_of in rw e)))
]

-- A line with its line feed.
abbrev pub terminate : List ℕ → List ℕ
terminate line = line ++ line_feed ∷ []

-- The terminated lines and the open line are the whole stream again.
pub concat-complete_lines :
    (cur xs : List ℕ)
    → concat (map terminate (complete_lines cur xs)) ++ open_line cur xs ≡ cur ++ xs
unfolding complete_lines open_line
concat-complete_lines cur [] = sym (append-nil cur)
concat-complete_lines cur (b ∷ xs) = elim (Bool-cases (b == line_feed)) [
  | inl e ↦
      let same : b ≡ line_feed = (==_iff b line_feed).0 e in
      rw e (simp (append_assoc, concat-complete_lines [] xs, same))
  | inr e ↦ rw e (concat-complete_lines (cur ++ b ∷ []) xs ∙ append_assoc cur (b ∷ []) xs)
]

-- What a reader delivers up to the end of a stream: its lines, and the open line if there is one.
unfoldable pub stream_pieces : List ℕ → List (List ℕ)
stream_pieces bytes =
    map terminate (complete_lines [] bytes)
    ++ (if length (open_line [] bytes) == 0 then [] else open_line [] bytes ∷ [])
