-- ===== src/Hosts/Links.antt =====
-- internal/hosts/links.go: the lines of a link list change places byte for byte. The functions of Go's
-- packages net/url and encoding/json are parameters.
pub mod Laws
use remnawave_subpage_proxy.Prelude.{
  ℕ, zero, suc, ◌+◌, Bool, true, false, not, ◌&&◌, ◌||◌, List, [], ◌∷◌, ◌++◌, Option, none, some,
  leb, ltb, ◌==◌, if◌then◌else◌, length, map, get_elem?, drop, all,
}
use remnawave_subpage_proxy.Prelude.Text.{
  Bytes, codes, is_empty, split, join, cut, has_prefix, trim_space,
}
use remnawave_subpage_proxy.Prelude.Text.Case.{Unicode, equal_fold}
use remnawave_subpage_proxy.B64
use remnawave_subpage_proxy.B64.{Base64, Alphabet, Decoded, plausible, decode_first, encodings}
use remnawave_subpage_proxy.Hosts.Shuffle.{Shuffler, permutation, arrange}

-- `path_unescape` is `url.PathUnescape`; `vmess_ps` is the field `ps` of the object that
-- `json.Unmarshal` reads; both are `none` on an error.
pub record LinkReaders : Type 0 where
  pub path_unescape : Bytes → Option Bytes
  pub vmess_ps : Bytes → Option Bytes

-- `Cut` at `://`
unfoldable pub cut_scheme : Bytes → Option (Bytes × Bytes)
cut_scheme [] = none
cut_scheme (c ∷ s) = elim (has_prefix (c ∷ s) (codes "://")) [
  | true ↦ some ([], drop 3 (c ∷ s))
  | false ↦ elim (cut_scheme s) [ none ↦ none | some (before, after) ↦ some (c ∷ before, after) ]
]

abbrev pub is_scheme_byte : ℕ → Bool
is_scheme_byte c =
    leb b'a' c && leb c b'z'
    || leb b'A' c && leb c b'Z'
    || leb b'0' c && leb c b'9'
    || c == b'+'
    || c == b'-'
    || c == b'.'

unfoldable pub is_scheme_name : Bytes → Bool
is_scheme_name scheme = all is_scheme_byte scheme

-- The test of one line that is not blank.
unfoldable pub is_link : Bytes → Bool
unfolding cut_scheme is_scheme_name
is_link line = elim (cut_scheme line) [
  | none ↦ false
  | some (scheme, rest) ↦ not (is_empty scheme) && is_scheme_name scheme
]

-- The loop of `isLinkList`: the first line that is not blank decides.
unfoldable pub first_is_link : List Bytes → Bool
unfolding is_link
first_is_link [] = false
first_is_link (line ∷ lines) =
    let later = first_is_link lines in
    if is_empty (trim_space line) then later else is_link (trim_space line)

unfoldable pub is_link_list : Bytes → Bool
unfolding first_is_link
is_link_list text = first_is_link (split 10 text)

-- `bytes.TrimRight(line, "\r")`
unfoldable pub trim_returns : Bytes → Bytes
trim_returns [] = []
trim_returns (c ∷ s) =
    let rest = trim_returns s in if c == 13 && is_empty rest then [] else c ∷ rest

-- `decodeList`: the text, and the alphabet that it was wrapped in.
unfoldable pub decode_list : Base64 → Bytes → Option (Bytes × Option Alphabet)
unfolding is_link_list
decode_list b body =
    if is_link_list body then some (body, none) else elim (B64.decode b is_link_list body) [
      | none ↦ none
      | some (text, a) ↦ some (text, some a)
    ]

abbrev pub or_else : Bytes → Option Bytes → Bytes
or_else s none = s
or_else s (some t) = t

module _ (u : Unicode) (b : Base64) (r : LinkReaders) where
  unfoldable pub fragment_name : Bytes → Bytes
  fragment_name link =
      let parts = cut b'#' link in
      if parts.found then or_else [] (r.path_unescape parts.after) else []

  unfoldable pub unescape : Bytes → Bytes
  unescape fragment = or_else fragment (r.path_unescape fragment)

  -- `b64.Decode` with a nil test takes the first alphabet that decodes.
  unfoldable pub decode_payload : Bytes → Option Bytes
  decode_payload payload = elim (B64.decode b (λ _. true) payload) [
    | none ↦ none
    | some (raw, _) ↦ some raw
  ]

  -- The field `ps`, where it is there and not empty.
  abbrev pub named_by : Bytes → Option Bytes → Bytes
  named_by fallback none = fallback
  named_by fallback (some ps) = if is_empty ps then fallback else ps

  unfoldable pub vmess_name : Bytes → Bytes
  unfolding unescape decode_payload
  vmess_name payload =
      let parts = cut b'#' payload in
      elim (decode_payload parts.before) [
        | none ↦ unescape parts.after
        | some decoded ↦ named_by (unescape parts.after) (r.vmess_ps decoded)
      ]

  unfoldable pub link_name : Bytes → Bytes
  unfolding vmess_name fragment_name
  link_name link = elim (cut_scheme link) [
    | none ↦ []
    | some (scheme, rest) ↦
        if equal_fold scheme (codes "vmess") then vmess_name rest else fragment_name link
  ]

  abbrev pub wrap : Option Alphabet → Bytes → Bytes
  wrap none text = text
  wrap (some a) text = b.encode a text

  -- `applyLinks`
  unfoldable pub apply_links : Shuffler → Bytes → Bytes × Bool
  unfolding link_name trim_returns
  apply_links s body = elim (decode_list b body) [
    | none ↦ (body, false)
    | some (text, enc) ↦
        let lines = split 10 text in
        elim (permutation s (map (λ line. link_name (trim_returns line)) lines)) [
          | none ↦ (body, false)
          | some perm ↦ (wrap enc (join (codes "\n") (arrange [] lines perm)), true)
        ]
  ]
