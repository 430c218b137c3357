-- ===== src/Proxy/Stages/Replay.antt =====
-- internal/proxy/cache.go: the fields of an answer that `writeFromCache` writes.
use remnawave_subpage_proxy.Prelude.{
  ◌≡◌, refl, sym, ap, ◌∙◌, inl, inr, false, List, [], ◌∷◌, Option, none, some, length, Bool-cases,
}
use remnawave_subpage_proxy.Prelude.Text.{Bytes, codes, bytes_eq}
use remnawave_subpage_proxy.Prelude.Text.Laws.{bytes_eq_iff}
use remnawave_subpage_proxy.Prelude.Assoc.{lookup, remove, IsMap, lookup-remove_ne}
use remnawave_subpage_proxy.Rewrite.Header.{Header, canonical, capitalise}
use remnawave_subpage_proxy.Rewrite.Engine.Frame.{lookup-set_ne, lookup-set_self}
use remnawave_subpage_proxy.Subcache.{Entry}
use remnawave_subpage_proxy.Proxy.Outside.{Outside}
use remnawave_subpage_proxy.Proxy.UserAgent.{Answer, write_body}
use remnawave_subpage_proxy.Proxy.Stages.{
  RequestInfo, Handled, replayed, Proxy, shuffles, copy_header, replay,
}

-- The values of a field in the first header, or else in the second.
abbrev pub either_field : Option (List Bytes) → Option (List Bytes) → Option (List Bytes)
either_field none other = other
either_field (some values) other = some values

lookup-copy_header :
    (o : Outside) (e h : Header) (key : Bytes)
    → IsMap e
    → lookup key (copy_header o e h) ≡ either_field (lookup key e) (lookup key h)
unfolding copy_header lookup
lookup-copy_header o [] h key m = refl
lookup-copy_header o ((k, vs) ∷ rest) h key m =
    lookup-copy_header o rest ((k, vs) ∷ remove k h) key m.1 ∙ elim (Bool-cases (bytes_eq k key)) [
      | inl same ↦
          let gone : lookup key rest ≡ none =
            ap (λ t. lookup t rest) (sym ((bytes_eq_iff k key).0 same)) ∙ m.0 in
          rw (lookup, gone, same) refl
      | inr apart ↦ rw (lookup, apart, lookup-remove_ne k key h apart) refl
    ]

length_name : canonical (codes "Content-Length") ≡ codes "Content-Length"
unfolding canonical capitalise
length_name = refl

-- An answer with status 200, the body and its length, and for the rest the fields of the header that
-- was served, over those that the answer had.
pub record IsReplayed (o : Outside) (served h : Header) (b : Bytes) (out : Handled) : Type 0 where
  pub answer : Answer
  pub is_answer : out ≡ replayed answer
  pub status : answer.status ≡ 200
  pub body : answer.body ≡ b
  pub sized : lookup (codes "Content-Length") answer.header ≡ some (o.itoa (length b) ∷ [])
  pub fields :
      (key : Bytes)
      → bytes_eq (codes "Content-Length") key ≡ false
      → lookup key answer.header ≡ either_field (lookup key served) (lookup key h)

module _ (o : Outside) (p : Proxy o) (info : RequestInfo) (h : Header) (e : Entry)
    (unmoved : shuffles o p info ≡ false) where
  replay_plain : replay o p info h e ≡ write_body o (copy_header o e.header h) e.status e.body
  unfolding replay
  replay_plain = rw unmoved refl

  write_body-IsReplayed :
      e.status ≡ 200
      → IsMap e.header
      → IsReplayed o e.header h e.body
          (replayed (write_body o (copy_header o e.header h) e.status e.body))
  unfolding write_body
  write_body-IsReplayed good distinct = record {
    answer = write_body o (copy_header o e.header h) e.status e.body;
    is_answer = refl;
    status = good;
    body = refl;
    sized =
        ap (λ n. lookup n (write_body o (copy_header o e.header h) e.status e.body).header)
          (sym length_name)
        ∙ lookup-set_self (copy_header o e.header h) (codes "Content-Length")
            (o.itoa (length e.body));
    fields = λ key apart.
        lookup-set_ne (copy_header o e.header h) (codes "Content-Length") (o.itoa (length e.body))
          key (ap (λ n. bytes_eq n key) length_name ∙ apart)
        ∙ lookup-copy_header o e.header h key distinct;
  }

  pub replay-IsReplayed :
      e.status ≡ 200
      → IsMap e.header
      → IsReplayed o e.header h e.body (replayed (replay o p info h e))
  replay-IsReplayed good distinct = rw replay_plain (write_body-IsReplayed good distinct)
