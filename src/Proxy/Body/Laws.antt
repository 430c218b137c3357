-- ===== src/Proxy/Body/Laws.antt =====
-- internal/proxy/body.go: draining a body loses nothing of it.
use remnawave_subpage_proxy.Prelude.{
  ℕ, zero, suc, ◌+◌, ◌-◌, ◌≡◌, ◌≢◌, ◌≤◌, ◌<◌, refl, sym, ap, ◌∙◌, inl, inr, Bool, true, false, ◌||◌,
  [], ◌∷◌, ◌++◌, Option, none, some, ltb, leb, length, length-append, length-take, take, drop,
  arith, Bool-cases, none_not_some,
}
use mathlib.Core.List.{append_assoc, append-nil}
use remnawave_subpage_proxy.Prelude.Int.{add_int64, max_int64}
use remnawave_subpage_proxy.Prelude.Text.{Bytes}
use remnawave_subpage_proxy.Proxy.Body.{
  Stream, end_of_body, broken, chunk, Body, no_body, buffered, streamed, read_limited, read_limit,
  drain_body,
}

-- The bytes that a reader of the stream gets, and whether it then meets an error.
abbrev pub stream_bytes : Stream → Bytes
stream_bytes end_of_body = []
stream_bytes broken = []
stream_bytes (chunk c s) = c ++ stream_bytes s

abbrev pub stream_fails : Stream → Bool
stream_fails end_of_body = false
stream_fails broken = true
stream_fails (chunk c s) = stream_fails s

abbrev pub body_bytes : Body → Bytes
body_bytes no_body = []
body_bytes (buffered b) = b
body_bytes (streamed s) = stream_bytes s

abbrev pub body_fails : Body → Bool
body_fails no_body = false
body_fails (buffered b) = false
body_fails (streamed s) = stream_fails s

take-drop : (n : ℕ) (s : Bytes) → take n s ++ drop n s ≡ s
take-drop zero s = refl
take-drop (suc n) [] = refl
take-drop (suc n) (c ∷ s) = ap (λ t. c ∷ t) (take-drop n s)

read_limited-bytes :
    (limit : ℕ) (s : Stream)
    → (read_limited limit s).bytes ++ stream_bytes (read_limited limit s).rest ≡ stream_bytes s
unfolding read_limited
read_limited-bytes limit end_of_body = refl
read_limited-bytes limit broken = refl
read_limited-bytes limit (chunk c s) = elim (Bool-cases (leb (length c) limit)) [
  | inl fits ↦
      let r = read_limited (limit - length c) s in
      rw fits (
        append_assoc c r.bytes (stream_bytes r.rest)
        ∙ ap (λ t. c ++ t) (read_limited-bytes (limit - length c) s))
  | inr long ↦ rw long (
      sym (append_assoc (take limit c) (drop limit c) (stream_bytes s))
      ∙ ap (λ t. t ++ stream_bytes s) (take-drop limit c))
]

read_limited-fails :
    (limit : ℕ) (s : Stream) → stream_fails (read_limited limit s).rest ≡ stream_fails s
unfolding read_limited
read_limited-fails limit end_of_body = refl
read_limited-fails limit broken = refl
read_limited-fails limit (chunk c s) = elim (Bool-cases (leb (length c) limit)) [
  | inl fits ↦ rw fits (read_limited-fails (limit - length c) s)
  | inr long ↦ rw long refl
]

-- A read that stops short of its limit without an error has read everything.
read_limited-whole :
    (limit : ℕ) (s : Stream)
    → (read_limited limit s).is_failed ≡ false
    → suc (length (read_limited limit s).bytes) ≤ limit
    → (read_limited limit s).rest ≡ end_of_body
unfolding read_limited
read_limited-whole limit end_of_body ok short = refl
read_limited-whole limit broken ok short = absurd (ground arith)
read_limited-whole limit (chunk c s) ok short = elim (Bool-cases (leb (length c) limit)) [
  | inl fits ↦
      let r = read_limited (limit - length c) s in
      let ok' : r.is_failed ≡ false = rw fits at ok in
      let size : suc (length (c ++ r.bytes)) ≤ limit = rw fits at short in
      rw fits
        (read_limited-whole (limit - length c) s ok' (omega (arith, size, length-append c r.bytes)))
  | inr long ↦
      let size : suc (length (take limit c)) ≤ limit = rw long at short in
      absurd (ground (arith, size, length-take limit c))
]

-- A stream without an error that is shorter than the limit is read to its end.
read_limited_all :
    (limit : ℕ) (s : Stream)
    → stream_fails s ≡ false
    → suc (length (stream_bytes s)) ≤ limit
    → ((read_limited limit s).is_failed ≡ false) × ((read_limited limit s).bytes ≡ stream_bytes s)
unfolding read_limited
read_limited_all limit end_of_body ok short = (refl, refl)
read_limited_all limit broken ok short = absurd (ground arith)
read_limited_all limit (chunk c s) ok short =
    let size = length-append c (stream_bytes s) in
    let fits : leb (length c) limit ≡ true = ground arith in
    let rest = read_limited_all (limit - length c) s ok (omega (arith, size, short)) in
    rw fits (rest.0, ap (λ t. c ++ t) rest.1)

-- What `drainBody` returns, and what it leaves.
pub record IsDrained (max_body : ℕ) (before : Body) (out : Option Bytes × Body) : Type 0 where
  pub bytes : body_bytes out.1 ≡ body_bytes before
  pub fails : body_fails out.1 ≡ body_fails before
  pub whole :
      (t : Bytes)
      → out.0 ≡ some t
      → (t ≡ body_bytes before) × (length t ≤ max_body) × (body_fails before ≡ false)
  pub small :
      before ≢ no_body
      → body_fails before ≡ false
      → length (body_bytes before) ≤ max_body
      → out.0 ≡ some (body_bytes before)

refused-IsDrained :
    (max_body : ℕ) (s : Stream)
    → (read_limited (max_body + 1) s).is_failed
        || ltb max_body (length (read_limited (max_body + 1) s).bytes)
      ≡ true
    → IsDrained max_body (streamed s) (
      none,
      streamed (chunk (read_limited (max_body + 1) s).bytes (read_limited (max_body + 1) s).rest),
    )
refused-IsDrained max_body s refused = record {
  bytes = read_limited-bytes (max_body + 1) s;
  fails = read_limited-fails (max_body + 1) s;
  whole = λ t h. absurd (none_not_some h);
  small = λ n ok size. never ok size;
}
  where
    never :
        stream_fails s ≡ false → length (stream_bytes s) ≤ max_body → none ≡ some (stream_bytes s)
    never ok size =
        let all = read_limited_all (max_body + 1) s ok (omega (arith, size)) in
        let read : length (read_limited (max_body + 1) s).bytes ≤ max_body = rw all.1 size in
        absurd (ground (arith, all.0))

whole-IsDrained :
    (max_body : ℕ) (s : Stream)
    → (read_limited (max_body + 1) s).is_failed
        || ltb max_body (length (read_limited (max_body + 1) s).bytes)
      ≡ false
    → IsDrained max_body
        (streamed s)
        (some (read_limited (max_body + 1) s).bytes, buffered (read_limited (max_body + 1) s).bytes)
whole-IsDrained max_body s drained =
    let r = read_limited (max_body + 1) s in
    let ok : r.is_failed ≡ false = ground arith in
    let size : length r.bytes ≤ max_body = ground arith in
    let ended = read_limited-whole (max_body + 1) s ok (omega (arith, size)) in
    let bytes : r.bytes ≡ stream_bytes s =
      sym (append-nil r.bytes)
      ∙ ap (λ t. r.bytes ++ stream_bytes t) (sym ended)
      ∙ read_limited-bytes (max_body + 1) s in
    let sound : false ≡ stream_fails s =
      ap stream_fails (sym ended) ∙ read_limited-fails (max_body + 1) s in
    record {
      bytes = bytes;
      fails = sound;
      whole = λ t h. whole_of t bytes size sound h;
      small = λ n fine small. ap some bytes;
    }
  where
    whole_of :
        (t : Bytes)
        → (read_limited (max_body + 1) s).bytes ≡ stream_bytes s
        → length (read_limited (max_body + 1) s).bytes ≤ max_body
        → false ≡ stream_fails s
        → some (read_limited (max_body + 1) s).bytes ≡ some t
        → (t ≡ stream_bytes s) × (length t ≤ max_body) × (stream_fails s ≡ false)
    whole_of t bytes size sound h =
        let same : (read_limited (max_body + 1) s).bytes ≡ t = cc in
        (sym same ∙ bytes, rw (sym same) size, sym sound)

read_limit_fits : (max_body : ℕ) → max_body < max_int64 → read_limit max_body ≡ max_body + 1
unfolding read_limit add_int64
read_limit_fits max_body fits = ground arith

drain_stream-IsDrained :
    (max_body : ℕ) (s : Stream)
    → max_body < max_int64
    → IsDrained max_body (streamed s) (drain_body max_body (streamed s))
unfolding drain_body
drain_stream-IsDrained max_body s fits =
    elim (Bool-cases (
      (read_limited (max_body + 1) s).is_failed
      || ltb max_body (length (read_limited (max_body + 1) s).bytes))) [
        | inl refused ↦
            rw (drain_body, read_limit_fits max_body fits, refused)
              (refused-IsDrained max_body s refused)
        | inr drained ↦
            rw (drain_body, read_limit_fits max_body fits, drained)
              (whole-IsDrained max_body s drained)
      ]

pub drain_body-IsDrained :
    (max_body : ℕ) (b : Body) → max_body < max_int64 → IsDrained max_body b (drain_body max_body b)
unfolding drain_body
drain_body-IsDrained max_body no_body small = record {
  bytes = refl;
  fails = refl;
  whole = λ t h. cc;
  small = λ n ok size. absurd (n refl);
}
drain_body-IsDrained max_body (buffered b) small = record {
  bytes = refl;
  fails = refl;
  whole = λ t h. elim (Bool-cases (leb (length b) max_body)) [
    | inl fits ↦
        let same : some b ≡ some t = rw fits at h in
        let equal : t ≡ b = cc in (equal, rw equal (ground arith), refl)
    | inr large ↦ let gone : none ≡ some t = rw large at h in absurd (none_not_some gone)
  ];
  small = λ n ok size. ground arith;
}
drain_body-IsDrained max_body (streamed s) small = drain_stream-IsDrained max_body s small
