-- ===== src/Backend/Joined.antt =====
-- Objects that are joined: the content of an upload of several parts.
use storage_gateway.Prelude.{
  ◌≡◌, refl, sym, ap, ◌∙◌, Option, none, some, List, [], ◌∷◌, ◌++◌, append_assoc, Str, All,
}

abbrev pub append_found : Option Str → Option Str → Option Str
append_found none rest = none
append_found (some a) none = none
append_found (some a) (some b) = some (a ++ b)

-- The contents of several objects one after the other, where all of them exist.
abbrev pub joined : (Str → Option Str) → List Str → Option Str
joined f [] = some []
joined f (k ∷ ks) = append_found (f k) (joined f ks)

pub append_found_assoc :
    (a b d : Option Str) → append_found (append_found a b) d ≡ append_found a (append_found b d)
append_found_assoc none b d = refl
append_found_assoc (some a) none d = refl
append_found_assoc (some a) (some b) none = refl
append_found_assoc (some a) (some b) (some d) = ap some (append_assoc a b d)

pub append_found_nil : (a : Option Str) → append_found (some []) a ≡ a
append_found_nil none = refl
append_found_nil (some a) = refl

pub joined-append :
    (f : Str → Option Str) (xs ys : List Str)
    → joined f (xs ++ ys) ≡ append_found (joined f xs) (joined f ys)
joined-append f [] ys = sym (append_found_nil (joined f ys))
joined-append f (x ∷ xs) ys =
    ap (append_found (f x)) (joined-append f xs ys)
    ∙ sym (append_found_assoc (f x) (joined f xs) (joined f ys))

-- Only the named objects count.
pub joined_same :
    (f g : Str → Option Str) (ks : List Str) → All (λ k. g k ≡ f k) ks → joined g ks ≡ joined f ks
joined_same f g [] h = refl
joined_same f g (k ∷ ks) (e, h) = rw (e, joined_same f g ks h) refl
