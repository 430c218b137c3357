-- ===== src/Hosts/Links/Laws.antt =====
-- internal/hosts/links.go: what `applyLinks` keeps.
use remnawave_subpage_proxy.Prelude.{
  ℕ, ◌≡◌, ◌≢◌, ◌⊎◌, refl, ap, ◌∙◌, inl, inr, Bool, true, false, not, List, [], ◌∷◌, ◌++◌, Option,
  none, some, ◌==◌, map, All, All-of, arith, Option-cases,
}
use remnawave_subpage_proxy.Prelude.Counts.{SameItems, SameItems-All}
use remnawave_subpage_proxy.Prelude.Text.{Bytes, codes, has_byte, split, join}
use remnawave_subpage_proxy.Prelude.Text.Laws.{split-Lacks, split-ne-nil}
use remnawave_subpage_proxy.Prelude.Text.Case.{Unicode}
use remnawave_subpage_proxy.B64.{Base64, Alphabet}
use remnawave_subpage_proxy.Hosts.Shuffle.{Shuffler, permutation, arrange}
use remnawave_subpage_proxy.Hosts.Shuffle.Permutation.{arrange-SameItems}
use remnawave_subpage_proxy.Hosts.Links.{
  LinkReaders, decode_list, link_name, trim_returns, wrap, apply_links,
}

split_lone : (sep : ℕ) (p : Bytes) → has_byte sep p ≡ false → split sep p ≡ p ∷ []
unfolding split has_byte
split_lone sep [] h = refl
split_lone sep (c ∷ p) h =
    let apart : c == sep ≡ false = ground arith in
    let rest = split_lone sep p (ground arith) in rw (apart, rest)

split-cut :
    (sep : ℕ) (p s : Bytes) → has_byte sep p ≡ false → split sep (p ++ sep ∷ s) ≡ p ∷ split sep s
unfolding split has_byte
split-cut sep [] s h = ground arith
split-cut sep (c ∷ p) s h =
    let apart : c == sep ≡ false = ground arith in
    let rest = split-cut sep p s (ground arith) in rw (apart, rest)

-- Parts without the separator are read back from their text.
pub split-join :
    (sep : ℕ) (parts : List Bytes)
    → parts ≢ []
    → All (λ p. has_byte sep p ≡ false) parts
    → split sep (join (sep ∷ []) parts) ≡ parts
unfolding join
split-join sep [] n h = absurd (n refl)
split-join sep (p ∷ []) n (lacks, h) = split_lone sep p lacks
split-join sep (p ∷ q ∷ ps) n (lacks, h) =
    split-cut sep p (join (sep ∷ []) (q ∷ ps)) lacks
    ∙ ap (λ l. p ∷ l) (split-join sep (q ∷ ps) (cc) h)

SameItems-ne-nil : (xs ys : List Bytes) → SameItems xs ys → ys ≢ [] → xs ≢ []
SameItems-ne-nil xs [] same n = absurd (n refl)
SameItems-ne-nil [] (y ∷ ys) same n = absurd (omega (arith, same (λ x. true)))
SameItems-ne-nil (x ∷ xs) (y ∷ ys) same n = cc

lacks_not : (sep : ℕ) (p : Bytes) → has_byte sep p ≡ false → not (has_byte sep p) ≡ true
lacks_not sep p h = rw h

not_lacks : (sep : ℕ) (p : Bytes) → not (has_byte sep p) ≡ true → has_byte sep p ≡ false
not_lacks sep p h = ground arith

module _ (u : Unicode) (b : Base64) (r : LinkReaders) (s : Shuffler) where
  abbrev pub line_name : Bytes → Bytes
  line_name line = link_name u b r (trim_returns line)

  -- Lines that change places are the lines of the text that they make.
  lines_kept :
      (text : Bytes) (perm : List ℕ)
      → permutation s (map line_name (split 10 text)) ≡ some perm
      → SameItems (split 10 (join (codes "\n") (arrange [] (split 10 text) perm))) (split 10 text)
  lines_kept text perm h =
      let lines = split 10 text in
      let same : SameItems (arrange [] lines perm) lines =
        arrange-SameItems [] line_name s lines perm h in
      let lacking : All (λ p. has_byte 10 p ≡ false) (arrange [] lines perm) =
        All-of (arrange [] lines perm) (not_lacks 10) (
          SameItems-All (λ p. not (has_byte 10 p)) (arrange [] lines perm) lines same
            (All-of lines (lacks_not 10) (split-Lacks 10 text))) in
      let back : split 10 (join (codes "\n") (arrange [] lines perm)) ≡ arrange [] lines perm =
        split-join 10 (arrange [] lines perm)
          (SameItems-ne-nil (arrange [] lines perm) lines same (split-ne-nil 10 text)) lacking in
      rw back same

  -- What may become of a body that was decoded so.
  pub IsRelinked : Bytes → Bytes × Bool → Option (Bytes × Option Alphabet) → Type 0
  IsRelinked body out none = out ≡ (body, false)
  IsRelinked body out (some (text, enc)) =
      (out ≡ (body, false))
      ⊎ ((text' : Bytes) × (out ≡ (wrap u b r enc text', true))
          × SameItems (split 10 text') (split 10 text))

  -- A body that is not a list of links, plain or wrapped, is left as it is. Any other stays the same,
  -- or becomes a text with the same lines, each as often as before and byte for byte, in the wrapping
  -- that the body had.
  pub apply_links-IsRelinked :
      (body : Bytes) → IsRelinked body (apply_links u b r s body) (decode_list b body)
  unfolding apply_links IsRelinked
  apply_links-IsRelinked body = elim (Option-cases (decode_list b body)) [
    | inl none_decoded ↦ rw (apply_links, none_decoded)
    | inr ((text, enc), decoded) ↦
        elim (Option-cases (permutation s (map line_name (split 10 text)))) [
          | inl unmoved ↦ rw (apply_links, decoded, unmoved) (inl refl)
          | inr (perm, moved) ↦
              rw (apply_links, decoded, moved)
                (inr (
                  join (codes "\n") (arrange [] (split 10 text) perm),
                  refl,
                  lines_kept text perm moved,
                ))
        ]
  ]
