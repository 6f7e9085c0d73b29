-- ===== src/Backend/Local/Listing/Pages.antt =====
-- internal/backend/local.go, ListObjects: what a page holds, and what two pages hold together.
use storage_gateway.Prelude.{
  ℕ, suc, ◌+◌, ◌≤◌, ◌<◌, ◌≡◌, refl, sym, ap, ◌∙◌, Bool, true, false, none, some, List, [], ◌∷◌,
  ◌++◌, map, append_assoc, append-nil, Str, All, length, length-append, leb, is_empty, str_leb,
  str_leb_refl, has_prefix, ok, arith,
}
use storage_gateway.Prelude.Int.{pos}
use storage_gateway.Backend.{page_size, ListObjectsInput, ObjectInfo}
use storage_gateway.Backend.Local.{File}
use storage_gateway.Backend.Local.Listing.{
  Entry, entries, skips, roll_up, object_info, add_info, page, list_loop, list_objects,
}

-- A regular entry of a directory, whose Info succeeds.
abbrev pub entry : Str × File → Entry
entry (name, f) = record { name = name; info = some f }

lt→leb : (n m : ℕ) → m < n → leb n m ≡ false
lt→leb n m h = ground arith

le→leb : (n m : ℕ) → n ≤ m → leb n m ≡ true
le→leb n m h = ground arith

module _ (md5_hex : Str → Str) where
  abbrev pub infos : List (Str × File) → List ObjectInfo
  infos [] = []
  infos ((name, f) ∷ fs) = object_info md5_hex name f ∷ infos fs

  length-infos : (fs : List (Str × File)) → length (infos fs) ≡ length fs
  length-infos [] = refl
  length-infos ((name, f) ∷ fs) = ap suc (length-infos fs)

  module _ (inp : ListObjectsInput) (n : ℕ) (flat : is_empty inp.delimiter ≡ true) where
    no_roll_up : (key : Str) → roll_up inp key ≡ none
    unfolding roll_up
    no_roll_up key = rw flat refl

    skip_step :
        (e : Entry) (es : List Entry) (acc : List ObjectInfo) (ps : List Str)
        → skips inp e.name ≡ true
        → list_loop md5_hex inp n (e ∷ es) acc ps ≡ list_loop md5_hex inp n es acc ps
    unfolding list_loop
    skip_step e es acc ps h = rw (h, list_loop) refl

    take_step :
        (name : Str) (f : File) (es : List Entry) (acc : List ObjectInfo) (ps : List Str)
        → skips inp name ≡ false
        → length acc < n
        → list_loop md5_hex inp n (entry (name, f) ∷ es) acc ps
          ≡ list_loop md5_hex inp n es (acc ++ object_info md5_hex name f ∷ []) ps
    unfolding list_loop add_info
    take_step name f es acc ps h k =
        rw (h, no_roll_up name, lt→leb n (length acc) k, list_loop) refl

    full_step :
        (e : Entry) (es : List Entry) (acc : List ObjectInfo) (ps : List Str)
        → skips inp e.name ≡ false
        → n ≤ length acc
        → list_loop md5_hex inp n (e ∷ es) acc ps ≡ page md5_hex acc ps true e.name
    unfolding list_loop
    full_step e es acc ps h k = rw (h, no_roll_up e.name, le→leb n (length acc) k, list_loop) refl

    -- Entries that the filters drop leave the loop as it was.
    loop-skipped :
        (front : List (Str × File)) (es : List Entry) (acc : List ObjectInfo) (ps : List Str)
        → All (λ (x : Str × File). skips inp x.0 ≡ true) front
        → list_loop md5_hex inp n (map entry front ++ es) acc ps ≡ list_loop md5_hex inp n es acc ps
    loop-skipped [] es acc ps h = refl
    loop-skipped ((name, f) ∷ front) es acc ps (s, h) =
        skip_step (entry (name, f)) (map entry front ++ es) acc ps s
        ∙ loop-skipped front es acc ps h

    -- Entries that pass, while there is room, are appended in order.
    loop-taken :
        (front : List (Str × File)) (es : List Entry) (acc : List ObjectInfo) (ps : List Str)
        → All (λ (x : Str × File). skips inp x.0 ≡ false) front
        → length acc + length front ≤ n
        → list_loop md5_hex inp n (map entry front ++ es) acc ps
          ≡ list_loop md5_hex inp n es (acc ++ infos front) ps
    loop-taken [] es acc ps h k = ap (λ t. list_loop md5_hex inp n es t ps) (sym (append-nil acc))
    loop-taken ((name, f) ∷ front) es acc ps (s, h) k =
        take_step name f (map entry front ++ es) acc ps s (omega arith)
        ∙ loop-taken front es (acc ++ object_info md5_hex name f ∷ []) ps h
            (omega (arith, length-append acc (object_info md5_hex name f ∷ [])))
        ∙ ap (λ t. list_loop md5_hex inp n es t ps)
            (append_assoc acc (object_info md5_hex name f ∷ []) (infos front))

    -- With room for all that pass, the page holds them in order and nothing follows.
    loop-end :
        (fs : List (Str × File))
        → All (λ (x : Str × File). skips inp x.0 ≡ false) fs
        → length fs ≤ n
        → list_loop md5_hex inp n (map entry fs) [] [] ≡ page md5_hex (infos fs) [] false []
    loop-end fs h k =
        ap (λ es. list_loop md5_hex inp n es [] []) (sym (append-nil (map entry fs)))
        ∙ loop-taken fs [] [] [] h (omega arith)
        ∙ unfold list_loop in refl

  module _ (bucket : Str) (n : ℕ) where
    -- A request for the whole bucket, and the same from a continuation token on.
    abbrev pub request : Str → ListObjectsInput
    request token = record {
      bucket = bucket;
      prefix = [];
      delimiter = [];
      max_keys = pos n;
      start_after = [];
      continuation_token = token;
    }

    has_prefix_nil : (s : Str) → has_prefix s [] ≡ true
    unfolding has_prefix
    has_prefix_nil [] = refl
    has_prefix_nil (x ∷ s) = refl

    skips-request_nil : (key : Str) → skips (request []) key ≡ false
    unfolding skips
    skips-request_nil key = rw (has_prefix_nil key) refl

    skips-request :
        (token key : Str) (b : Bool)
        → is_empty token ≡ false
        → str_leb key token ≡ b
        → skips (request token) key ≡ b
    unfolding skips
    skips-request token key b h e = rw (has_prefix_nil key, h, e) refl

    skips-All :
        (token : Str) (b : Bool) (fs : List (Str × File))
        → is_empty token ≡ false
        → All (λ (x : Str × File). str_leb x.0 token ≡ b) fs
        → All (λ (x : Str × File). skips (request token) x.0 ≡ b) fs
    skips-All token b [] h k = tt
    skips-All token b ((name, f) ∷ fs) h (e, k) =
        (skips-request token name b h e, skips-All token b fs h k)

    skips-All_nil :
        (fs : List (Str × File)) → All (λ (x : Str × File). skips (request []) x.0 ≡ false) fs
    skips-All_nil [] = tt
    skips-All_nil ((name, f) ∷ fs) = (skips-request_nil name, skips-All_nil fs)

    page_size_pos : 0 < n → page_size (pos n) ≡ n
    page_size_pos h = ground arith

    module _ (front : List (Str × File)) (name : Str) (f : File) (rest : List (Str × File)) where
      abbrev pub directory : List Entry
      directory = map entry front ++ (entry (name, f) ∷ map entry rest)

      first_page :
          length front ≡ n
          → list_loop md5_hex (request []) n directory [] []
            ≡ page md5_hex (infos front) [] true name
      first_page e =
          loop-taken (request []) n refl front (entry (name, f) ∷ map entry rest) [] []
            (skips-All_nil front) (omega arith)
          ∙ full_step (request []) n refl (entry (name, f)) (map entry rest) (infos front) []
              (skips-request_nil name) (omega (arith, length-infos front, e))

      second_page :
          is_empty name ≡ false
          → All (λ (x : Str × File). str_leb x.0 name ≡ true) front
          → All (λ (x : Str × File). str_leb x.0 name ≡ false) rest
          → length rest ≤ n
          → list_loop md5_hex (request name) n directory [] []
            ≡ page md5_hex (infos rest) [] false []
      second_page nonempty before after h =
          loop-skipped (request name) n refl front (entry (name, f) ∷ map entry rest) [] []
            (skips-All name true front nonempty before)
          ∙ skip_step (request name) n refl (entry (name, f)) (map entry rest) [] []
              (skips-request name name true nonempty (str_leb_refl name))
          ∙ loop-end (request name) n refl rest (skips-All name false rest nonempty after) h

      -- A directory with `n` names in front of `name` and at most `n` behind it, in order, listed with
      -- max-keys `n` greater than 0 and no filters: the first page holds the objects in front and has
      -- the token `name`, and the page that this token asks for holds the objects behind. The object
      -- `name` is on neither page, and the second page says that nothing follows.
      pub list_objects-boundary :
          0 < n
          → length front ≡ n
          → length rest ≤ n
          → is_empty name ≡ false
          → All (λ (x : Str × File). str_leb x.0 name ≡ true) front
          → All (λ (x : Str × File). str_leb x.0 name ≡ false) rest
          → (list_objects md5_hex (entries directory) (request [])
              ≡ ok (page md5_hex (infos front) [] true name))
            × (list_objects md5_hex (entries directory) (request name)
                ≡ ok (page md5_hex (infos rest) [] false []))
      list_objects-boundary p e h nonempty before after = (
        unfold list_objects in rw (page_size_pos p) (ap ok (first_page e)),
        unfold list_objects in rw (page_size_pos p) (ap ok (second_page nonempty before after h)),
      )
