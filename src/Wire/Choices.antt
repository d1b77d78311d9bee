-- ===== src/Wire/Choices.antt =====
-- The readings of src/protocol/decode.ts that several messages share, and its bounds.
use mathlib.Core.Option
use tailii_host.Prelude.{
  ℕ, true, false, [], ◌∷◌, Option, none, some, ◌≡◌, refl, min, leb, if◌then◌else◌, arith,
  Bool-cases, inl, inr, subst, sym, ◌∙◌, ◌≢◌,
}
use tailii_host.Wire.Values.{Value, null, bool, num, real, infinite, str, arr, obj, canonicalize}
use tailii_host.Wire.Shapes.{number_type, conforms_option, conforms}
use tailii_host.Wire.Reading.{Result, ok, fail, missing_field, Reader, ok-inversion}
use tailii_host.Wire.Readers.{require_one_of, optional_one_of}

-- `Number.MAX_SAFE_INTEGER`.
abbrev pub max_safe_integer : ℕ
max_safe_integer = 9007199254740991

abbrev pub history_page_max_limit : ℕ
history_page_max_limit = 200

abbrev pub image_fetch_min_pixel_size : ℕ
image_fetch_min_pixel_size = 256

abbrev pub image_fetch_max_pixel_size : ℕ
image_fetch_max_pixel_size = 16384

abbrev pub background_sync_hints_max : ℕ
background_sync_hints_max = 256

abbrev pub remote_pending_snapshot_max : ℕ
remote_pending_snapshot_max = 256

abbrev pub permission_mode : Reader
permission_mode = optional_one_of ("default" ∷ "acceptEdits" ∷ "plan" ∷ "auto" ∷ [])

abbrev pub effort : Reader
effort = optional_one_of ("low" ∷ "medium" ∷ "high" ∷ "xhigh" ∷ "max" ∷ [])

abbrev pub session_backend : Reader
session_backend = optional_one_of ("tmux" ∷ "herdr" ∷ [])

abbrev pub host_update_status : Reader
host_update_status =
    require_one_of ("started" ∷ "already" ∷ "in_progress" ∷ "unsupported" ∷ "error" ∷ [])

abbrev pub backend_kind : Reader
backend_kind = require_one_of ("tmux" ∷ "herdr" ∷ [])

abbrev pub remote_pending_kind : Reader
remote_pending_kind = require_one_of ("approval" ∷ "question" ∷ [])

abbrev pub official_app_provider : Reader
official_app_provider = require_one_of ("claude" ∷ "codex" ∷ [])

-- `limit` of `history_page_request`: a whole number from 1 on, cut to the greatest page.
abbrev pub read_limit : Option Value → Result (Option Value)
read_limit (some (num n)) =
    if leb 1 n then ok (some (num (min n history_page_max_limit))) else fail missing_field
read_limit _ = fail missing_field

-- The cut limit is a limit too, and is not cut again.
cut-steady :
    (n : ℕ)
    → leb 1 n ≡ true
    → read_limit (some (num (min n history_page_max_limit)))
      ≡ ok (some (num (min n history_page_max_limit)))
cut-steady n h = ground arith

limit-taken :
    (n : ℕ)
    → leb 1 n ≡ true
    → read_limit (some (num n)) ≡ ok (some (num (min n history_page_max_limit)))
limit-taken n e = rw e refl

limit-refused : (n : ℕ) {out : Option Value} → leb 1 n ≡ false → read_limit (some (num n)) ≢ ok out
limit-refused n e h = ground arith

limit-steady :
    (n : ℕ) (out : Option Value)
    → read_limit (some (num n)) ≡ ok out
    → read_limit (Option.map canonicalize out) ≡ ok out
unfolding canonicalize
limit-steady n out h = elim (Bool-cases (leb 1 n)) [
  | inl e ↦
      subst (λ x. read_limit (Option.map canonicalize x) ≡ ok x)
        (ok-inversion (sym (limit-taken n e) ∙ h)) (cut-steady n e)
  | inr e ↦ absurd (limit-refused n e h)
]

pub read_limit-steady :
    (o out : Option Value)
    → read_limit o ≡ ok out
    → read_limit (Option.map canonicalize out) ≡ ok out
read_limit-steady (some (num n)) out h = limit-steady n out h
read_limit-steady none out h = absurd (cc)
read_limit-steady (some null) out h = absurd (cc)
read_limit-steady (some (bool b)) out h = absurd (cc)
read_limit-steady (some (real s n d)) out h = absurd (cc)
read_limit-steady (some (infinite s)) out h = absurd (cc)
read_limit-steady (some (str s)) out h = absurd (cc)
read_limit-steady (some (arr vs)) out h = absurd (cc)
read_limit-steady (some (obj fs)) out h = absurd (cc)

pub read_limit-typed :
    (o out : Option Value) → read_limit o ≡ ok out → conforms_option false number_type out ≡ true
unfolding conforms
read_limit-typed o out h = ground arith

abbrev pub history_page_limit : Reader
history_page_limit = record {
  read = read_limit;
  optional = false;
  type = number_type;
  steady = read_limit-steady;
  typed = read_limit-typed;
  refuses = λ o r h. ground arith;
}
