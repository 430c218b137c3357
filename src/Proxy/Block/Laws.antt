-- ===== src/Proxy/Block/Laws.antt =====
-- What the blocker of internal/proxy/block.go refuses, and what it lets through.
use remnawave_subpage_proxy.Prelude.{
  ℕ, suc, ◌≡◌, refl, sym, ap, ◌∙◌, ◌≢◌, ◌++◌, All, ◌⊎◌, inl, inr, Bool, true, false, ◌||◌, List, [],
  ◌∷◌, none, some, any, IsIn, arith,
}
use remnawave_subpage_proxy.Prelude.Text.{Bytes, codes, bytes_eq, contains, has_prefix, has_byte}
use remnawave_subpage_proxy.Prelude.Text.Case.{Unicode, to_lower}
use remnawave_subpage_proxy.Proxy.Route.{split_path, strip_prefix, Route}
use remnawave_subpage_proxy.Proxy.Route.Laws.{strip_prefix-nil, strip_prefix_iff, IsRoute}
use remnawave_subpage_proxy.Proxy.Block.{
  Blocker, extension, blocked_dots, blocked_named, blocked_segments, enabled_blocked, blocked,
  from_last, scanner_names, scanner_extensions,
}

append-ne-nil : (xs : List Bytes) (y : Bytes) (ys : List Bytes) → xs ++ y ∷ ys ≢ []
append-ne-nil [] y ys = cc
append-ne-nil (x ∷ xs) y ys = cc

IsIn-ne-nil : (x : Bytes) (xs : List Bytes) → IsIn x xs → xs ≢ []
IsIn-ne-nil x [] h = absurd h
IsIn-ne-nil x (y ∷ xs) h = cc

module _ (u : Unicode) where
  blocked_dots_parent :
      (first : Bytes) (i : ℕ) (segments : List Bytes)
      → IsIn (codes "..") segments
      → blocked_dots u first i segments ≡ true
  unfolding blocked_dots has_prefix bytes_eq
  blocked_dots_parent first i (s ∷ rest) (inl e) = rw (← e)
  blocked_dots_parent first i (s ∷ rest) (inr m) =
      rw (blocked_dots_parent first (suc i) rest m) (ground arith)
  blocked_dots_parent first i [] h = absurd h

  blocked_dots_self :
      (first : Bytes) (i : ℕ) (segments : List Bytes)
      → IsIn (codes ".") segments
      → blocked_dots u first i segments ≡ true
  unfolding blocked_dots has_prefix bytes_eq
  blocked_dots_self first i (s ∷ rest) (inl e) = rw (← e)
  blocked_dots_self first i (s ∷ rest) (inr m) =
      rw (blocked_dots_self first (suc i) rest m) (ground arith)
  blocked_dots_self first i [] h = absurd h

  blocked_named_of_dots :
      (segments : List Bytes)
      → ((first : Bytes) (i : ℕ) → blocked_dots u first i segments ≡ true)
      → segments ≢ []
      → blocked_named u segments ≡ true
  unfolding blocked_named
  blocked_named_of_dots [] h n = absurd (n refl)
  blocked_named_of_dots (s ∷ rest) h n = ground (arith, h s 0)

  blocked_of_named :
      (b : Blocker) (path : Bytes)
      → b.enabled ≡ true
      → blocked_named u (strip_prefix (split_path path) b.prefix).0 ≡ true
      → blocked u (some b) path ≡ true
  unfolding blocked enabled_blocked
  blocked_of_named b path on h =
      rw on (ground (arith, blocked_segments_of_named (split_path path) h))
    where
      blocked_segments_of_named :
          (segments : List Bytes)
          → blocked_named u (strip_prefix segments b.prefix).0 ≡ true
          → blocked_segments u b.prefix segments ≡ true
      blocked_segments_of_named [] h = unfold blocked_named in cc (rw strip_prefix-nil at h)
      blocked_segments_of_named (s ∷ segments) h = unfold blocked_segments in rw h (ground arith)

  -- An enabled blocker refuses every path that has a segment `.` or `..` behind the prefix, so no
  -- such path is handed to the upstream, which would resolve it; no exemption lets one through.
  pub blocked_relative :
      (b : Blocker) (path : Bytes)
      → b.enabled ≡ true
      → IsIn (codes ".") (strip_prefix (split_path path) b.prefix).0
        ⊎ IsIn (codes "..") (strip_prefix (split_path path) b.prefix).0
      → blocked u (some b) path ≡ true
  blocked_relative b path on h =
      blocked_of_named b path on (relative (strip_prefix (split_path path) b.prefix).0 h)
    where
      relative :
          (segments : List Bytes)
          → IsIn (codes ".") segments ⊎ IsIn (codes "..") segments
          → blocked_named u segments ≡ true
      relative segments (inl m) =
          blocked_named_of_dots segments (λ first i. blocked_dots_self first i segments m)
            (IsIn-ne-nil _ segments m)
      relative segments (inr m) =
          blocked_named_of_dots segments (λ first i. blocked_dots_parent first i segments m)
            (IsIn-ne-nil _ segments m)

  from_last-none : (b : ℕ) (s : Bytes) → has_byte b s ≡ false → from_last b s ≡ none
  unfolding from_last has_byte
  from_last-none b [] h = refl
  from_last-none b (c ∷ s) h = ground (arith, from_last-none b s)

  extension_of_undotted : (s : Bytes) → has_byte b'.' s ≡ false → extension u s ≡ []
  unfolding extension
  extension_of_undotted s h = rw (from_last-none b'.' s h, extension)

  undotted-extension :
      (s : Bytes) → has_byte b'.' s ≡ false → contains scanner_extensions (extension u s) ≡ false
  undotted-extension s h = rw (extension_of_undotted s h) (unfold contains bytes_eq in refl)

  undotted-blocked_dots :
      (first : Bytes) (i : ℕ) (segments : List Bytes)
      → All (λ s. has_byte b'.' s ≡ false) segments
      → blocked_dots u first i segments ≡ false
  unfolding blocked_dots has_prefix has_byte
  undotted-blocked_dots first i [] h = refl
  undotted-blocked_dots first i ([] ∷ rest) (_, h) = undotted-blocked_dots first (suc i) rest h
  undotted-blocked_dots first i ((c ∷ s) ∷ rest) (hs, h) =
      ground (arith, undotted-blocked_dots first (suc i) rest h)

  undotted-any :
      (segments : List Bytes)
      → All (λ s. has_byte b'.' s ≡ false) segments
      → any (λ t. contains scanner_extensions (extension u t)) segments ≡ false
  undotted-any [] h = refl
  undotted-any (s ∷ rest) (hs, h) = rw (undotted-extension s hs, undotted-any rest h)

  any-append : (p : Bytes → Bool) (xs ys : List Bytes) → any p (xs ++ ys) ≡ (any p xs || any p ys)
  any-append p [] ys = refl
  any-append p (x ∷ xs) ys = ground (arith, any-append p xs ys)

  undotted-blocked_named :
      (s : Bytes) (rest : List Bytes)
      → All (λ t. has_byte b'.' t ≡ false) (s ∷ rest)
      → blocked_named u (s ∷ rest) ≡ contains scanner_names (to_lower u s)
  unfolding blocked_named
  undotted-blocked_named s rest h = rw (undotted-blocked_dots s 0 (s ∷ rest) h) (ground arith)

  blocked_segments_lem :
      (prefix s : Bytes) (segments : List Bytes)
      → blocked_segments u prefix (s ∷ segments) ≡ (
          any (λ t. contains scanner_extensions (extension u t)) (s ∷ segments)
          || blocked_named u (strip_prefix (s ∷ segments) prefix).0)
  unfolding blocked_segments
  blocked_segments_lem prefix s segments = ground arith

  undotted-blocked_segments :
      (prefix s : Bytes) (rest segments : List Bytes)
      → segments ≡ split_path prefix ++ s ∷ rest
      → All (λ t. has_byte b'.' t ≡ false) (s ∷ rest)
      → blocked_segments u prefix segments ≡ (
          any (λ t. contains scanner_extensions (extension u t)) (split_path prefix)
          || contains scanner_names (to_lower u s))
  undotted-blocked_segments prefix s rest [] e h =
      absurd (append-ne-nil (split_path prefix) s rest (sym e))
  undotted-blocked_segments prefix s rest (t ∷ segments) e h =
      let stripped : strip_prefix (t ∷ segments) prefix ≡ (s ∷ rest, true) =
        (strip_prefix_iff (t ∷ segments) (s ∷ rest) prefix).1 e in
      let p : Bytes → Bool = λ q. contains scanner_extensions (extension u q) in
      let exts : any p (t ∷ segments) ≡ (any p (split_path prefix) || any p (s ∷ rest)) =
        ap (any p) e ∙ any-append p (split_path prefix) (s ∷ rest) in
      let named : blocked_named u (strip_prefix (t ∷ segments) prefix).0
          ≡ blocked_named u (s ∷ rest) =
        ap (λ (m : List Bytes × Bool). blocked_named u m.0) stripped in
      ground (
        arith,
        blocked_segments_lem prefix t segments,
        named,
        undotted-blocked_named s rest h,
        exts,
        undotted-any (s ∷ rest) h,
      )

  -- A path that names a subscription, with no dot in the segment behind the short UUID, is refused
  -- by an enabled blocker exactly when a pattern matches it, a segment of the prefix has a
  -- scanner's extension, or the lowercased short UUID is a scanner's name.
  pub blocked-IsRoute :
      (b : Blocker) (path : Bytes) (r : Route) (named : IsRoute u path b.prefix r)
      → b.enabled ≡ true
      → All (λ t. has_byte b'.' t ≡ false) named.rest
      → blocked u (some b) path ≡ (
          any (λ re. re path) b.patterns
          || any (λ t. contains scanner_extensions (extension u t)) (split_path b.prefix)
          || contains scanner_names (to_lower u r.short_uuid))
  unfolding blocked enabled_blocked
  blocked-IsRoute b path r named on undotted =
      rw
        (
          on,
          undotted-blocked_segments b.prefix r.short_uuid named.rest (split_path path)
              named.segments (named.uuid.undotted, undotted),
        )
        (ground arith)
