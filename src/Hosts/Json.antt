-- ===== src/Hosts/Json.antt =====
-- internal/hosts/jsonobj.go: JSON objects that keep the order of their members. Go's package
-- encoding/json is a parameter.
pub mod Fuel
use remnawave_subpage_proxy.Prelude.{
  ℕ, zero, suc, Bool, true, false, ◌||◌, List, [], ◌∷◌, ◌++◌, Option, none, some, ◌==◌,
  if◌then◌else◌,
}
use remnawave_subpage_proxy.Prelude.Text.{Bytes, codes, bytes_eq, is_empty, join}

-- A token of `json.Decoder`.
pub data Token : Type 0 where
  delim : ℕ → Token
  text : Bytes → Token
  other : Token

-- What `json.Unmarshal` reads of an outbound. The values that it could read stay where it fails.
pub record Node : Type 0 where
  pub tag : Bytes
  pub server : Bytes
  pub outbounds : List Bytes
  pub is_read : Bool

-- Every function is `none` on an error. `marshal_raw` is what `json.Marshal` makes of the bytes that a
-- `MarshalJSON` returns, and `remarks` the field of an Xray configuration. `left` counts the bytes that
-- a decoder has not read.
pub record Json : Type 1 where
  pub Decoder : Type 0
  pub decoder : Bytes → Decoder
  pub left : Decoder → ℕ
  pub token : Decoder → Option (Token × Decoder)
  pub more : Decoder → Bool
  pub value : Decoder → Option (Bytes × Decoder)
  pub unmarshal_array : Bytes → Option (List Bytes)
  pub remarks : Bytes → Option Bytes
  pub node : Bytes → Node
  pub quote : Bytes → Option Bytes
  pub marshal_strings : List Bytes → Option Bytes
  pub marshal_raw : Bytes → Option Bytes
  pub compact : Bytes → Option Bytes
  pub indent : Bytes → Bytes → Option Bytes

abbrev pub Object : Type 0
Object = List (Bytes × Bytes)

-- `get`
unfoldable pub get_member : Bytes → Object → Option Bytes
get_member key [] = none
get_member key ((k, v) ∷ o) = let rest = get_member key o in if bytes_eq k key then some v else rest

-- `set`: the first member with the key; an absent key changes nothing.
unfoldable pub set_member : Bytes → Bytes → Object → Object
set_member key value [] = []
set_member key value ((k, v) ∷ o) =
    let rest = set_member key value o in if bytes_eq k key then (k, value) ∷ o else (k, v) ∷ rest

-- `marshalArray`
unfoldable pub marshal_array : List Bytes → Bytes
marshal_array items = b'[' ∷ (join (codes ",") items ++ codes "]")

-- The front of a text that is blanks and tabs.
unfoldable pub blanks : Bytes → Bytes
blanks [] = []
blanks (c ∷ s) = let rest = blanks s in if c == 32 || c == 9 then c ∷ rest else []

-- `detectIndent`
unfoldable pub detect_indent : Bytes → Bytes
unfolding blanks
detect_indent [] = []
detect_indent (c ∷ s) = let rest = detect_indent s in if c == 10 then blanks s else rest

abbrev pub or_bytes : Bytes → Option Bytes → Bytes
or_bytes s none = s
or_bytes s (some t) = t

module _ (j : Json) where
  -- The loop of `parseObject` and the token behind it; the fuel bounds the members.
  unfoldable pub parse_members : ℕ → j.Decoder → Option Object
  parse_members zero d = none
  parse_members (suc fuel) d = elim (j.more d) [
    | false ↦ elim (j.token d) [ none ↦ none | some _ ↦ some [] ]
    | true ↦ elim (j.token d) [
      | some (text key, d') ↦ elim (j.value d') [
        | none ↦ none
        | some (v, d'') ↦ elim (parse_members fuel d'') [
          | none ↦ none
          | some o ↦ some ((key, v) ∷ o)
        ]
      ]
      | _ ↦ none
    ]
  ]

  -- `parseObject`. Every member takes bytes, so there are no more of them than bytes.
  unfoldable pub parse_object : Bytes → Option Object
  unfolding parse_members
  parse_object raw = elim (j.token (j.decoder raw)) [
    | some (delim c, d) ↦ if c == b'{' then parse_members (suc (j.left d)) d else none
    | _ ↦ none
  ]

  -- The loop of `MarshalJSON`.
  unfoldable pub member_texts : Object → Option (List Bytes)
  member_texts [] = some []
  member_texts ((k, v) ∷ o) = elim (j.quote k) [
    | none ↦ none
    | some key ↦ elim (member_texts o) [
      | none ↦ none
      | some texts ↦ some ((key ++ b':' ∷ v) ∷ texts)
    ]
  ]

  -- `MarshalJSON`
  unfoldable pub object_text : Object → Option Bytes
  unfolding member_texts
  object_text o = elim (member_texts o) [
    | none ↦ none
    | some texts ↦ some (b'{' ∷ (join (codes ",") texts ++ codes "}"))
  ]

  -- `json.Marshal` of an object
  unfoldable pub marshal_object : Object → Option Bytes
  unfolding object_text
  marshal_object o = elim (object_text o) [ none ↦ none | some raw ↦ j.marshal_raw raw ]

  unfoldable pub indent_like : Bytes → Bytes → Bytes
  unfolding detect_indent
  indent_like original out =
      let indent = detect_indent original in
      if is_empty indent then or_bytes out (j.compact out) else or_bytes out (j.indent indent out)
