-- ===== src/Proxy/Route/Laws.antt =====
-- What the routing of internal/proxy/route.go promises.
use mathlib.Core.List.{reverse-append, reverse-reverse}
use remnawave_subpage_proxy.Prelude.{
  ◌+◌, ◌≤◌, ◌≡◌, refl, sym, ◌∙◌, ◌≢◌, ◌↔◌, ◌⊎◌, inl, inr, Bool, true, false, not, ◌||◌, List, [],
  ◌∷◌, ◌++◌, reverse, arith, ltb, ◌==◌, if◌then◌else◌, length, Bool-cases, All, IsIn,
}
use remnawave_subpage_proxy.Prelude.Text.{
  Bytes, is_empty, contains, has_byte, split, trim_byte, trim_left_byte,
}
use remnawave_subpage_proxy.Prelude.Text.Case.{Unicode, to_lower}
use remnawave_subpage_proxy.Prelude.Text.Laws.{
  bytes_eq_iff, contains_sound, split-Lacks, split_at_end,
}
use remnawave_subpage_proxy.Proxy.Route.{
  Route, client_types, reserved_segments, no_route, non_empty, split_path, strip_parts,
  strip_prefix, plausible_short_uuid, client_type_of, route_of, parse_route,
}

-- A segment of a path: not empty, and free of slashes.
abbrev pub IsSegment : Bytes → Type 0
IsSegment s = (s ≢ []) × (has_byte b'/' s ≡ false)

non_empty-IsSegment :
    (ps : List Bytes) → All (λ p. has_byte b'/' p ≡ false) ps → All IsSegment (non_empty ps)
unfolding non_empty
non_empty-IsSegment [] h = tt
non_empty-IsSegment ([] ∷ ps) (_, h) = non_empty-IsSegment ps h
non_empty-IsSegment ((c ∷ p) ∷ ps) (hp, h) = ((cc, hp), non_empty-IsSegment ps h)

-- Every segment of a path is non-empty and holds no slash.
pub split_path-IsSegment : (path : Bytes) → All IsSegment (split_path path)
unfolding split_path
split_path-IsSegment path = elim (Bool-cases (is_empty (trim_byte b'/' path))) [
  | inl e ↦ rw e tt
  | inr n ↦ rw n (non_empty-IsSegment _ (split-Lacks b'/' (trim_byte b'/' path)))
]

non_empty-trim_left :
    (s : Bytes) → non_empty (split b'/' (trim_left_byte b'/' s)) ≡ non_empty (split b'/' s)
unfolding non_empty split trim_left_byte
non_empty-trim_left [] = refl
non_empty-trim_left (c ∷ s) = elim (Bool-cases (c == b'/')) [
  | inl e ↦ rw e (non_empty-trim_left s)
  | inr n ↦ rw (n, n)
]

non_empty-append_nil : (ps : List Bytes) → non_empty (ps ++ [] ∷ []) ≡ non_empty ps
unfolding non_empty
non_empty-append_nil [] = refl
non_empty-append_nil (p ∷ ps) = ground (arith, non_empty-append_nil ps)

non_empty-trim_right :
    (r : Bytes)
    → non_empty (split b'/' (reverse (trim_left_byte b'/' r))) ≡ non_empty (split b'/' (reverse r))
unfolding trim_left_byte
non_empty-trim_right [] = refl
non_empty-trim_right (c ∷ r) = elim (Bool-cases (c == b'/')) [
  | inl e ↦ rw e (
      non_empty-trim_right r
      ∙ sym (
          let same : c ≡ b'/' = ground arith in
          rw (same, reverse-append (b'/' ∷ []) r, split_at_end) (non_empty-append_nil _)))
  | inr n ↦ rw n
]

-- The segments of a path are the non-empty parts between its slashes: trimming loses none.
pub split_path_lem : (path : Bytes) → split_path path ≡ non_empty (split b'/' path)
unfolding split_path trim_byte
split_path_lem path =
    parts_of_trimmed (trim_byte b'/' path)
    ∙ (rw reverse-reverse at (non_empty-trim_right (reverse (trim_left_byte b'/' path))))
    ∙ non_empty-trim_left path
  where
    parts_of_trimmed :
        (s : Bytes)
        → (if is_empty s then [] else non_empty (split b'/' s)) ≡ non_empty (split b'/' s)
    parts_of_trimmed [] = unfold non_empty split in refl
    parts_of_trimmed (c ∷ s) = refl

strip_parts_sound :
    (segments wants rest : List Bytes)
    → strip_parts segments wants ≡ (rest, true)
    → segments ≡ non_empty wants ++ rest
unfolding strip_parts non_empty
strip_parts_sound segments [] rest h = ground arith
strip_parts_sound [] (want ∷ wants) rest h = ground (arith, strip_parts_sound [] wants rest)
strip_parts_sound (s ∷ segments) (want ∷ wants) rest h = ground (
  arith,
  bytes_eq_iff s want,
  strip_parts_sound (s ∷ segments) wants rest,
  strip_parts_sound segments wants rest,
)

strip_parts_complete :
    (wants rest : List Bytes) → strip_parts (non_empty wants ++ rest) wants ≡ (rest, true)
unfolding strip_parts non_empty
strip_parts_complete [] rest = refl
strip_parts_complete ([] ∷ wants) rest =
    strip_skip (non_empty wants ++ rest) (strip_parts_complete wants rest)
  where
    strip_skip :
        (segments : List Bytes)
        → strip_parts segments wants ≡ (rest, true)
        → strip_parts segments ([] ∷ wants) ≡ (rest, true)
    strip_skip [] h = h
    strip_skip (s ∷ segments) h = h
strip_parts_complete ((c ∷ want) ∷ wants) rest =
    rw ((bytes_eq_iff (c ∷ want) (c ∷ want)).1 refl) (strip_parts_complete wants rest)

strip_parts-nil : (wants : List Bytes) → (strip_parts [] wants).0 ≡ []
unfolding strip_parts
strip_parts-nil [] = refl
strip_parts-nil ([] ∷ wants) = strip_parts-nil wants
strip_parts-nil ((c ∷ want) ∷ wants) = refl

pub strip_prefix-nil : (prefix : Bytes) → (strip_prefix [] prefix).0 ≡ []
unfolding strip_prefix
strip_prefix-nil prefix = strip_parts-nil (split b'/' prefix)

-- A prefix is stripped exactly when the path's segments begin with the segments of the prefix, and
-- what is left are the segments behind them.
pub strip_prefix_iff :
    (segments rest : List Bytes) (prefix : Bytes)
    → (strip_prefix segments prefix ≡ (rest, true)) ↔ (segments ≡ split_path prefix ++ rest)
unfolding strip_prefix
strip_prefix_iff segments rest prefix = rw split_path_lem (
  strip_parts_sound segments (split b'/' prefix) rest,
  λ e. rw e (strip_parts_complete (split b'/' prefix) rest),
)

module _ (u : Unicode) where
  -- What a segment needs to be taken for a short UUID.
  pub record IsShortUuid (s : Bytes) : Type 0 where
    pub present : s ≢ []
    pub bounded : length s ≤ 128
    pub undotted : has_byte b'.' s ≡ false
    pub unreserved : contains reserved_segments (to_lower u s) ≡ false

  pub plausible_short_uuid_iff : (s : Bytes) → (plausible_short_uuid u s ≡ true) ↔ IsShortUuid s
  unfolding plausible_short_uuid
  plausible_short_uuid_iff [] = (λ h. cc, λ h. absurd (h.present refl))
  plausible_short_uuid_iff (c ∷ s) = (
    λ h. record {
      present = cc;
      bounded = ground arith;
      undotted = ground arith;
      unreserved = ground arith;
    },
    λ h. ground (arith, h.bounded, h.undotted, h.unreserved),
  )

  -- What `ParseRoute` promises of a path that names a subscription: its segments are the prefix's,
  -- then the short UUID, then at most one more, and the client type is known or empty.
  pub record IsRoute (path prefix : Bytes) (r : Route) : Type 0 where
    pub rest : List Bytes
    pub segments : split_path path ≡ split_path prefix ++ r.short_uuid ∷ rest
    pub few : length rest ≤ 1
    pub uuid : IsShortUuid r.short_uuid
    pub client : (r.client_type ≡ []) ⊎ IsIn r.client_type client_types

  client_type_of-IsIn :
      (rest : List Bytes) → (client_type_of u rest ≡ []) ⊎ IsIn (client_type_of u rest) client_types
  unfolding client_type_of
  client_type_of-IsIn [] = inl refl
  client_type_of-IsIn (s ∷ _) = elim (Bool-cases (contains client_types (to_lower u s))) [
    | inl e ↦ rw e (inr (contains_sound client_types (to_lower u s) e))
    | inr n ↦ rw n (inl refl)
  ]

  route_of-IsRoute :
      (path prefix : Bytes) (segments : List Bytes)
      → split_path path ≡ split_path prefix ++ segments
      → (route_of u segments).short_uuid ≢ []
      → IsRoute path prefix (route_of u segments)
  unfolding route_of
  route_of-IsRoute path prefix [] e h = absurd (h refl)
  route_of-IsRoute path prefix (s ∷ rest) e h =
      elim (Bool-cases (ltb 2 (length rest + 1) || not (plausible_short_uuid u s))) [
        | inl refused ↦ absurd (h (rw refused))
        | inr taken ↦ rw taken (record {
          rest = rest;
          segments = e;
          few = ground arith;
          uuid = (plausible_short_uuid_iff s).0 (ground arith);
          client = client_type_of-IsIn rest;
        })
      ]

  -- A path that names a subscription is the prefix, then a plausible short UUID, then at most one
  -- more segment; the client type is one of the known ones or empty.
  pub parse_route-IsRoute :
      (path prefix : Bytes)
      → (parse_route u path prefix).short_uuid ≢ []
      → IsRoute path prefix (parse_route u path prefix)
  unfolding parse_route
  parse_route-IsRoute path prefix h = by_match (strip_prefix (split_path path) prefix) refl h
    where
      by_match :
          (m : List Bytes × Bool)
          → strip_prefix (split_path path) prefix ≡ m
          → (if m.1 then route_of u m.0 else no_route).short_uuid ≢ []
          → IsRoute path prefix (if m.1 then route_of u m.0 else no_route)
      by_match (segments, true) e h =
          route_of-IsRoute path prefix segments
            ((strip_prefix_iff (split_path path) segments prefix).0 e) h
      by_match (segments, false) e h = absurd (h refl)

  -- The other direction: a plausible short UUID behind the prefix is found, alone or with one more
  -- segment behind it.
  pub parse_route_complete :
      (path prefix s : Bytes) (rest : List Bytes)
      → split_path path ≡ split_path prefix ++ s ∷ rest
      → length rest ≤ 1
      → IsShortUuid s
      → parse_route u path prefix ≡ record { short_uuid = s; client_type = client_type_of u rest }
  unfolding parse_route route_of
  parse_route_complete path prefix s rest e few h =
      rw ((strip_prefix_iff (split_path path) (s ∷ rest) prefix).1 e)
        (ground (arith, (plausible_short_uuid_iff s).1 h))
