-- ===== src/Wire/Trim.antt =====
-- `text.trim()`, and the texts that src/protocol/decode.ts takes after it: the names of an output
-- style and the references of a worktree.
use Prim.Native.Char.{code}
use mathlib.Core.Option
use tailii_host.Prelude.{
  ℕ, String, Bool, true, false, not, ◌&&◌, ◌||◌, List, [], ◌∷◌, Option, none, some, ◌==◌, nat_eq,
  string_eq, if◌then◌else◌, leb, length, all, any, drop, ◌≡◌, refl, ap, ◌∙◌, arith, subst,
  Bool-cases, inl, inr,
}
use tailii_host.Prelude.Text.{codes, is_prefix}
use tailii_host.Wire.Values.{Value, null, bool, num, real, infinite, str, arr, obj, canonicalize}
use tailii_host.Wire.Shapes.{string_type, conforms, conforms_option}
use tailii_host.Wire.Reading.{ok, Reader, ok-inversion}

-- The white space and line ends of JavaScript.
abbrev is_space : ℕ → Bool
is_space c =
    leb 9 c && leb c 13
    || c == 32
    || c == 160
    || c == 5760
    || leb 8192 c && leb c 8202
    || c == 8232
    || c == 8233
    || c == 8239
    || c == 8287
    || c == 12288
    || c == 65279

abbrev is_empty : String → Bool
is_empty String.[] = true
is_empty (String.◌∷◌ c s) = false

unfoldable pub trim_start : String → String
trim_start String.[] = String.[]
trim_start (String.◌∷◌ c s) =
    let rest = trim_start s in if is_space (code c) then rest else String.◌∷◌ c s

unfoldable pub trim_end : String → String
trim_end String.[] = String.[]
trim_end (String.◌∷◌ c s) =
    let rest = trim_end s in
    if is_space (code c) && is_empty rest then String.[] else String.◌∷◌ c rest

unfoldable pub trim : String → String
unfolding trim_start trim_end
trim s = trim_end (trim_start s)

-- No white space stands first.
abbrev is_clean : String → Bool
is_clean String.[] = true
is_clean (String.◌∷◌ c s) = not (is_space (code c))

trim_start-clean : (s : String) → is_clean (trim_start s) ≡ true
unfolding trim_start
trim_start-clean String.[] = refl
trim_start-clean (String.◌∷◌ c s) = ground (arith, trim_start-clean s)

trim_end-clean : (s : String) → is_clean s ≡ true → is_clean (trim_end s) ≡ true
unfolding trim_end
trim_end-clean String.[] h = refl
trim_end-clean (String.◌∷◌ c s) h = ground arith

trim_start_clean : (s : String) → is_clean s ≡ true → trim_start s ≡ s
unfolding trim_start
trim_start_clean String.[] h = refl
trim_start_clean (String.◌∷◌ c s) h = ground arith

trim_end_twice : (s : String) → trim_end (trim_end s) ≡ trim_end s
unfolding trim_end
trim_end_twice String.[] = refl
trim_end_twice (String.◌∷◌ c s) = ground (arith, trim_end_twice s)

pub trim_twice : (s : String) → trim (trim s) ≡ trim s
unfolding trim
trim_twice s =
    ap trim_end (
      trim_start_clean (trim_end (trim_start s))
        (trim_end-clean (trim_start s) (trim_start-clean s)))
    ∙ trim_end_twice (trim_start s)

-- A text that is taken, trimmed, if it passes the test then.
abbrev tidied : (List ℕ → Bool) → String → Option Value
tidied test s = if test (codes (trim s)) then some (str (trim s)) else none

abbrev tidy : (List ℕ → Bool) → Option Value → Option Value
tidy test (some (str s)) = tidied test s
tidy test _ = none

tidied-steady :
    (test : List ℕ → Bool) (s : String)
    → tidy test (Option.map canonicalize (tidied test s)) ≡ tidied test s
unfolding canonicalize
tidied-steady test s = elim (Bool-cases (test (codes (trim s)))) [
  | inl e ↦ rw (e, trim_twice s, e) refl
  | inr e ↦ rw e refl
]

tidy-steady :
    (test : List ℕ → Bool) (o : Option Value)
    → tidy test (Option.map canonicalize (tidy test o)) ≡ tidy test o
tidy-steady test none = refl
tidy-steady test (some (str s)) = tidied-steady test s
tidy-steady test (some null) = refl
tidy-steady test (some (bool b)) = refl
tidy-steady test (some (num n)) = refl
tidy-steady test (some (real s n d)) = refl
tidy-steady test (some (infinite s)) = refl
tidy-steady test (some (arr vs)) = refl
tidy-steady test (some (obj fs)) = refl

tidy-typed :
    (test : List ℕ → Bool) (o : Option Value)
    → conforms_option true string_type (tidy test o) ≡ true
unfolding conforms
tidy-typed test o = ground arith

pub tidy-reads :
    (test : List ℕ → Bool) (o out : Option Value)
    → ok (tidy test o) ≡ ok out
    → ok (tidy test (Option.map canonicalize out)) ≡ ok out
tidy-reads test o out h =
    let e = ok-inversion h in
    subst (λ x. ok (tidy test (Option.map canonicalize x)) ≡ ok x) e (ap ok (tidy-steady test o))

pub tidy-promises :
    (test : List ℕ → Bool) (o out : Option Value)
    → ok (tidy test o) ≡ ok out
    → conforms_option true string_type out ≡ true
tidy-promises test o out h =
    subst (λ x. conforms_option true string_type x ≡ true) (ok-inversion h) (tidy-typed test o)

abbrev optional_trimmed : (List ℕ → Bool) → Reader
optional_trimmed test = record {
  read = λ o. ok (tidy test o);
  optional = true;
  type = string_type;
  steady = tidy-reads test;
  typed = tidy-promises test;
  refuses = λ o r h. ground arith;
}

abbrev is_digit : ℕ → Bool
is_digit c = leb 48 c && leb c 57

abbrev is_alphanumeric : ℕ → Bool
is_alphanumeric c = is_digit c || leb 65 c && leb c 90 || leb 97 c && leb c 122

abbrev is_among : String → ℕ → Bool
is_among characters c = any (λ d. d == c) (codes characters)

-- `/^[A-Za-z0-9][A-Za-z0-9 _.-]{0,39}$/`.
abbrev is_style_name : List ℕ → Bool
is_style_name [] = false
is_style_name (c ∷ cs) =
    is_alphanumeric c && leb (length cs) 39 && all (λ d. is_alphanumeric d || is_among " _.-" d) cs

-- `decodeOutputStyle`.
abbrev pub output_style : Reader
output_style = optional_trimmed is_style_name

-- `/^\d{1,8}$/`.
abbrev is_short_number : List ℕ → Bool
is_short_number cs = not (length cs == 0) && leb (length cs) 8 && all is_digit cs

-- `/^#?\d{1,8}$/`.
abbrev is_issue : List ℕ → Bool
is_issue cs = is_short_number (if is_prefix (codes "#") cs then drop 1 cs else cs)

abbrev without_final_slash : List ℕ → List ℕ
without_final_slash [] = []
without_final_slash (c ∷ cs) =
    let rest = without_final_slash cs in if c == 47 && length cs == 0 then [] else c ∷ rest

-- `/^\/(pull|merge_requests)\/\d{1,8}\/?$/`.
abbrev is_request_path : List ℕ → Bool
is_request_path cs =
    is_prefix (codes "/pull/") cs && is_short_number (without_final_slash (drop 6 cs))
    || is_prefix (codes "/merge_requests/") cs && is_short_number (without_final_slash (drop 16 cs))

-- The same, after any text.
abbrev ends_in_request : List ℕ → Bool
ends_in_request [] = false
ends_in_request (c ∷ cs) = is_request_path (c ∷ cs) || ends_in_request cs

-- `/^https?:\/\/[A-Za-z0-9._~:/?#\[\]@!$&()*+,;=%-]{1,300}$/`, after the scheme.
abbrev is_address : List ℕ → Bool
is_address cs =
    not (length cs == 0)
    && leb (length cs) 300
    && all (λ c. is_alphanumeric c || is_among "._~:/?#[]@!$&()*+,;=%-" c) cs

abbrev is_web_address : List ℕ → Bool
is_web_address cs =
    is_prefix (codes "http://") cs && is_address (drop 7 cs)
    || is_prefix (codes "https://") cs && is_address (drop 8 cs)

-- `decodeWorktreeRef`.
abbrev pub worktree_ref : Reader
worktree_ref = optional_trimmed (λ cs. is_issue cs || is_web_address cs && ends_in_request cs)
