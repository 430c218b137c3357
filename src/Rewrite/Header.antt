-- ===== src/Rewrite/Header.antt =====
-- `http.Header` of Go, as a map from canonical names to values: what internal/rewrite calls of it.
use remnawave_subpage_proxy.Prelude.{
  ℕ, Bool, true, ◌&&◌, ◌||◌, List, [], ◌∷◌, Option, none, some, leb, ◌==◌, if◌then◌else◌, all,
}
use remnawave_subpage_proxy.Prelude.Text.{Bytes, codes, has_byte}
use remnawave_subpage_proxy.Prelude.Text.Case.{lower_byte, upper_byte}
use remnawave_subpage_proxy.Prelude.Assoc.{lookup, remove}

abbrev pub Header : Type 0
Header = List (Bytes × List Bytes)

-- The bytes that a field name may hold.
abbrev pub is_token_byte : ℕ → Bool
is_token_byte c =
    leb b'A' c && leb c b'Z'
    || leb b'a' c && leb c b'z'
    || leb b'0' c && leb c b'9'
    || has_byte c (codes "!#$%&'*+-.^_`|~")

-- Upper case at the start and behind a dash, lower case elsewhere.
unfoldable pub capitalise : Bool → Bytes → Bytes
unfolding lower_byte upper_byte
capitalise start [] = []
capitalise start (c ∷ s) = (if start then upper_byte c else lower_byte c) ∷ capitalise (c == b'-') s

-- `http.CanonicalHeaderKey`: a name with any other byte stays as it is.
unfoldable pub canonical : Bytes → Bytes
unfolding capitalise has_byte
canonical name = if all is_token_byte name then capitalise true name else name

-- `firstValue`, which is also the value that `h.Get` reads.
abbrev pub first : Option (List Bytes) → Option Bytes
first none = none
first (some []) = none
first (some (v ∷ _)) = some v

unfoldable pub first_value : Header → Bytes → Option Bytes
first_value h name = first (lookup (canonical name) h)

abbrev pub or_blank : Option Bytes → Bytes
or_blank none = []
or_blank (some v) = v

unfoldable pub get : Header → Bytes → Bytes
get h name = or_blank (first_value h name)

unfoldable pub set : Header → Bytes → Bytes → Header
set h name value = (canonical name, value ∷ []) ∷ remove (canonical name) h

unfoldable pub del : Header → Bytes → Header
del h name = remove (canonical name) h
