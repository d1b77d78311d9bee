-- ===== src/Wire/Bounded.antt =====
-- The bounds that src/protocol/decode.ts sets: on the page of a history request, on the size of an image
-- and on the lists that it cuts.
use tailii_host.Prelude.{
  ℕ, zero, suc, Bool, true, false, not, ◌&&◌, ◌||◌, [], ◌∷◌, Option, none, some, ◌==◌, string_eq,
  leb, ◌≡◌, refl, subst, arith,
}
use tailii_host.Prelude.Maps.{get}
use tailii_host.Wire.Values.{Value, num, arr, Items, nil, cons, Fields, lookup}
use tailii_host.Wire.Reading.{Result, ok, fail, Element, ok-inversion}
use tailii_host.Wire.Readers.{one, require_string, optional_string, optional}
use tailii_host.Wire.Kinds.{between}
use tailii_host.Wire.Arrays.{require_array_upto, map_items, take_items, count}
use tailii_host.Wire.Objects.{object}
use tailii_host.Wire.Choices.{
  history_page_limit, image_fetch_min_pixel_size, image_fetch_max_pixel_size,
  background_sync_hints_max, remote_pending_snapshot_max, remote_pending_kind,
}
use tailii_host.Wire.Parts.{at}
use tailii_host.Wire.Messages.Approvals.{remote_pending_snapshot_item, background_sync_hint}
use tailii_host.Wire.Decode.{decode_control_message, decode_value}
use tailii_host.Wire.Sent.{type_of}
use tailii_host.Wire.Properties.{property-holds}

-- The bounds of a page, an image and a list.
abbrev is_page_limit : Option Value → Bool
is_page_limit (some (num n)) = leb 1 n && leb n 200
is_page_limit _ = false

abbrev is_pixel_size : Option Value → Bool
is_pixel_size none = true
is_pixel_size (some (num n)) = leb 256 n && leb n 16384
is_pixel_size (some _) = false

abbrev is_short_list : Option Value → Bool
is_short_list (some (arr vs)) = leb (count vs) 256
is_short_list _ = false

limit-bounded :
    (o out : Option Value) → history_page_limit.read o ≡ ok out → is_page_limit out ≡ true
limit-bounded o out h = ground arith

pixels-bounded :
    (o out : Option Value)
    → (optional (between image_fetch_min_pixel_size image_fetch_max_pixel_size)).read o ≡ ok out
    → is_pixel_size out ≡ true
pixels-bounded o out h = ground arith

count-map_items :
    (f : Value → Result Value) (n : ℕ) (vs ws : Items)
    → map_items f (take_items n vs) ≡ ok ws
    → leb (count ws) n ≡ true
count-map_items f zero vs ws h = grind arith
count-map_items f (suc n) nil ws h = grind arith
count-map_items f (suc n) (cons v vs) ws h = grind (arith, count-map_items f n vs)

cut_list-bounded :
    (r : Result Items) (out : Option Value)
    → ((ws : Items) → r ≡ ok ws → leb (count ws) 256 ≡ true)
    → one (elim r [ ok ws ↦ ok (arr ws) | fail reason ↦ fail reason ]) ≡ ok out
    → is_short_list out ≡ true
cut_list-bounded (ok ws) out all_short h =
    subst (λ x. is_short_list x ≡ true) (ok-inversion h) (all_short ws refl)
cut_list-bounded (fail reason) out all_short h = absurd (cc)

list-bounded :
    (e : Element) (o out : Option Value)
    → (require_array_upto 256 e).read o ≡ ok out
    → is_short_list out ≡ true
list-bounded e (some (arr vs)) out h =
    cut_list-bounded (map_items e.run (take_items 256 vs)) out (count-map_items e.run 256 vs) h
list-bounded e o out h = absurd (ground arith)

page_limit_holds :
    (o : Option Value) (m : Fields)
    → decode_value o ≡ ok m
    → (type_of m == "history_page_request") ≡ true
    → is_page_limit (lookup "limit" m) ≡ true
unfolding get
page_limit_holds =
    property-holds "history_page_request" "limit" history_page_limit
      (at "id" require_string
        ∷ at "name" require_string
        ∷ at "beforeStreamId" optional_string
        ∷ at "beforeToolId" optional_string
        ∷ [])
      [] is_page_limit refl refl refl refl limit-bounded

pixel_size_holds :
    (o : Option Value) (m : Fields)
    → decode_value o ≡ ok m
    → (type_of m == "image_fetch_request") ≡ true
    → is_pixel_size (lookup "maxPixelSize" m) ≡ true
unfolding get
pixel_size_holds =
    property-holds "image_fetch_request" "maxPixelSize"
      (optional (between image_fetch_min_pixel_size image_fetch_max_pixel_size))
      (at "id" require_string ∷ []) [] is_pixel_size refl refl refl refl pixels-bounded

snapshot_holds :
    (o : Option Value) (m : Fields)
    → decode_value o ≡ ok m
    → (type_of m == "remote_pending_snapshot") ≡ true
    → is_short_list (lookup "items" m) ≡ true
unfolding get
snapshot_holds =
    property-holds "remote_pending_snapshot" "items"
      (require_array_upto remote_pending_snapshot_max (object remote_pending_snapshot_item refl))
      (at "kind" remote_pending_kind ∷ []) [] is_short_list refl refl refl refl
      (list-bounded (object remote_pending_snapshot_item refl))

hints_hold :
    (o : Option Value) (m : Fields)
    → decode_value o ≡ ok m
    → (type_of m == "background_sync_hints") ≡ true
    → is_short_list (lookup "sessions" m) ≡ true
unfolding get
hints_hold =
    property-holds "background_sync_hints" "sessions"
      (require_array_upto background_sync_hints_max (object background_sync_hint refl)) [] []
      is_short_list refl refl refl refl (list-bounded (object background_sync_hint refl))

-- What the bounds say of a message, by its type.
abbrev pub is_bounded : Fields → Bool
is_bounded m =
    (not (type_of m == "history_page_request") || is_page_limit (lookup "limit" m))
    && (not (type_of m == "image_fetch_request") || is_pixel_size (lookup "maxPixelSize" m))
    && (not (type_of m == "remote_pending_snapshot") || is_short_list (lookup "items" m))
    && (not (type_of m == "background_sync_hints") || is_short_list (lookup "sessions" m))

implied : (a b : Bool) → (a ≡ true → b ≡ true) → (not a || b) ≡ true
implied true b h = h refl
implied false b h = refl

four : (a b c d : Bool) → a ≡ true → b ≡ true → c ≡ true → d ≡ true → (a && b && c && d) ≡ true
four a b c d h g k l = ground arith

module _ {ℓ} {Line : Type ℓ} (parse : Line → Option Value) where
  -- In every decoded message, the limit of a `history_page_request` is a whole number from 1 to 200, the
  -- `maxPixelSize` of an `image_fetch_request` is missing or a whole number from 256 to 16384, and the
  -- lists of a `remote_pending_snapshot` and of `background_sync_hints` have at most 256 elements.
  pub decode-bounded :
      (line : Line) (m : Fields) → decode_control_message parse line ≡ ok m → is_bounded m ≡ true
  unfolding decode_control_message
  decode-bounded line m h =
      four _ _ _ _ (implied _ _ (page_limit_holds (parse line) m h))
        (implied _ _ (pixel_size_holds (parse line) m h))
        (implied _ _ (snapshot_holds (parse line) m h)) (implied _ _ (hints_hold (parse line) m h))
