-- ===== src/Tmpl.antt =====
-- The package internal/tmpl: placeholders such as {TRAFFIC_LIMIT|default:none|upper} and how they are
-- rendered.
pub mod Pieces
pub mod Laws
pub mod Substitution
use remnawave_subpage_proxy.Prelude.{
  ℕ, zero, suc, ◌+◌, ◌-◌, Bool, true, false, not, ◌&&◌, ◌||◌, List, [], ◌∷◌, ◌++◌, Option, none,
  some, ltb, leb, ◌==◌, if◌then◌else◌, length, take,
}
use remnawave_subpage_proxy.Prelude.Int.{ℤ, pos, negsuc}
use remnawave_subpage_proxy.Prelude.Text.{
  Bytes, codes, bytes_eq, is_empty, contains, has_byte, split, cut, trim_space,
}
use remnawave_subpage_proxy.Prelude.Text.Case.{Unicode, to_lower, to_upper}
use remnawave_subpage_proxy.Prelude.Text.Decimal.{parse_int}
use remnawave_subpage_proxy.Prelude.Text.Utf8.{runes, concat}

abbrev pub is_upper : ℕ → Bool
is_upper c = leb b'A' c && leb c b'Z'

abbrev pub is_name_byte : ℕ → Bool
is_name_byte c = is_upper c || leb b'0' c && leb c b'9' || c == b'_'

abbrev pub is_brace : ℕ → Bool
is_brace c = c == b'{' || c == b'}'

-- The longest front whose bytes pass the test, and the rest.
unfoldable pub span : (ℕ → Bool) → Bytes → Bytes × Bytes
span p [] = ([], [])
span p (c ∷ s) = let (front, rest) = span p s in if p c then (c ∷ front, rest) else ([], c ∷ s)

-- One match of `placeholderRe`: its two groups, and the whole match.
pub record Placeholder : Type 0 where
  pub name : Bytes
  pub spec : Bytes
  pub text : Bytes

abbrev pub placeholder : Bytes → Bytes → Placeholder
placeholder name spec = record {
  name = name;
  spec = spec;
  text = b'{' ∷ (name ++ (spec ++ b'}' ∷ []));
}

abbrev pub starts_upper : Bytes → Bool
starts_upper [] = false
starts_upper (c ∷ _) = is_upper c

abbrev pub starts_with : ℕ → Bytes → Bool
starts_with b [] = false
starts_with b (c ∷ _) = c == b

-- The pattern behind the name: modifiers hold no brace, each begins with a bar.
unfoldable pub match_spec : Bytes → Bytes → Option Placeholder
match_spec name [] = none
match_spec name (c ∷ s) =
    let (body, rest) = span (λ b. not (is_brace b)) s in
    if c == b'}'
    then some (placeholder name [])
    else if c == b'|' && starts_with b'}' rest
    then some (placeholder name (b'|' ∷ body))
    else none

-- `placeholderRe` anchored at the front of a text. Each part of the pattern takes bytes that the next
-- cannot begin with, so the longest name and the longest modifiers are the only match.
unfoldable pub match_front : Bytes → Option Placeholder
unfolding span match_spec
match_front [] = none
match_front (c ∷ s) =
    let (name, rest) = span is_name_byte s in
    if c == b'{' && starts_upper name then match_spec name rest else none

-- A text as the bytes outside the matches, and the matches, from left to right.
pub data Piece : Type 0 where
  literal : ℕ → Piece
  hole : Placeholder → Piece

-- The number counts the bytes left of a match begun.
unfoldable pub pieces_from : ℕ → Bytes → List Piece
pieces_from k [] = []
pieces_from (suc k) (c ∷ s) = pieces_from k s
pieces_from zero (c ∷ s) = elim (match_front (c ∷ s)) [
  | none ↦ literal c ∷ pieces_from zero s
  | some p ↦ hole p ∷ pieces_from (length p.text - 1) s
]

unfoldable pub pieces : Bytes → List Piece
unfolding pieces_from match_front
pieces s = pieces_from 0 s

unfoldable pub any_hole : List Piece → Bool
any_hole [] = false
any_hole (literal c ∷ ps) = any_hole ps
any_hole (hole p ∷ ps) = true

-- `Contains`
unfoldable pub has_placeholder : Bytes → Bool
unfolding pieces any_hole
has_placeholder s = has_byte b'{' s && any_hole (pieces s)

-- The loop of `Names`.
unfoldable pub add_names : List Piece → List Bytes → List Bytes
add_names [] names = names
add_names (literal c ∷ ps) names = add_names ps names
add_names (hole p ∷ ps) names =
    add_names ps (if contains names p.name then names else names ++ p.name ∷ [])

unfoldable pub names : Bytes → List Bytes
unfolding pieces add_names
names s = if has_byte b'{' s then add_names (pieces s) [] else []

pub data Unknown : Type 0 where
  keep blank : Unknown

-- A name that is not known is `none`.
abbrev pub Lookup : Type 0
Lookup = Bytes → Option Bytes

pub record Modifier : Type 0 where
  pub name : Bytes
  pub arg : Bytes

abbrev pub ellipsis : Bytes
ellipsis = 0xE2 ∷ 0x80 ∷ 0xA6 ∷ []

unfoldable pub truncate_to : Bytes → ℕ → Bytes
truncate_to s n =
    let rs = runes s in
    if leb (length rs) n
    then s
    else if n == 1
    then ellipsis
    else concat (take (n - 1) rs) ++ ellipsis

unfoldable pub truncate : Bytes → ℤ → Bytes
unfolding truncate_to
truncate s (negsuc n) = s
truncate s (pos n) = if n == 0 then s else truncate_to s n

unfoldable pub default_of : List Modifier → Option Bytes
default_of [] = none
default_of (m ∷ ms) = if bytes_eq m.name (codes "default") then some m.arg else default_of ms

module _ (u : Unicode) where
  unfoldable pub modifier_of : Bytes → Modifier
  modifier_of part =
      let c = cut b':' part in record { name = to_lower u (trim_space c.before); arg = c.after }

  unfoldable pub modifiers_of : List Bytes → List Modifier
  unfolding modifier_of
  modifiers_of [] = []
  modifiers_of (part ∷ parts) = modifier_of part ∷ modifiers_of parts

  -- A spec that is not empty begins with the bar that `TrimPrefix` takes off.
  unfoldable pub parse_modifiers : Bytes → List Modifier
  unfolding modifiers_of
  parse_modifiers [] = []
  parse_modifiers (c ∷ s) = modifiers_of (split b'|' (if c == b'|' then s else c ∷ s))

  abbrev pub truncate_by : Bytes → Option ℤ → Bytes
  truncate_by value none = value
  truncate_by value (some n) = truncate value n

  -- One round of `applyModifiers`.
  unfoldable pub apply_modifier : Bytes → Modifier → Bytes
  apply_modifier value m =
      if bytes_eq m.name (codes "upper")
      then to_upper u value
      else if bytes_eq m.name (codes "lower")
      then to_lower u value
      else if bytes_eq m.name (codes "trim")
      then trim_space value
      else if bytes_eq m.name (codes "truncate")
      then truncate_by value (parse_int (trim_space m.arg))
      else value

  unfoldable pub apply_modifiers : Bytes → List Modifier → Bytes
  unfolding apply_modifier
  apply_modifiers value [] = value
  apply_modifiers value (m ∷ ms) = apply_modifiers (apply_modifier value m) ms

  -- The value that the modifiers of `renderOne` work on; `none` is an early return.
  unfoldable pub chosen : Option Bytes → Option Bytes → Option Bytes
  chosen none fallback = fallback
  chosen (some []) none = some []
  chosen (some []) (some def) = some def
  chosen (some (c ∷ s)) fallback = some (c ∷ s)

  abbrev pub unresolved : Unknown → Bytes → Bytes
  unresolved blank text = []
  unresolved keep text = text

  unfoldable pub render_one : Placeholder → Lookup → Unknown → Bytes
  unfolding parse_modifiers chosen
  render_one p lookup unknown =
      let mods = parse_modifiers p.spec in
      elim (chosen (lookup p.name) (default_of mods)) [
        | none ↦ unresolved unknown p.text
        | some value ↦ apply_modifiers value mods
      ]

  unfoldable pub render_pieces : List Piece → Lookup → Unknown → Bytes
  unfolding render_one
  render_pieces [] lookup unknown = []
  render_pieces (literal c ∷ ps) lookup unknown = c ∷ render_pieces ps lookup unknown
  render_pieces (hole p ∷ ps) lookup unknown =
      render_one p lookup unknown ++ render_pieces ps lookup unknown

  unfoldable pub render : Bytes → Lookup → Unknown → Bytes
  unfolding render_pieces
  render s lookup unknown =
      if not (has_byte b'{' s)
      then s
      else if not (any_hole (pieces s))
      then s
      else render_pieces (pieces s) lookup unknown
