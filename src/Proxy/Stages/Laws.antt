-- ===== src/Proxy/Stages/Laws.antt =====
-- internal/proxy: how the stages of a response work together.
use remnawave_subpage_proxy.Prelude.{
  ℕ, ◌+◌, ◌≡◌, ◌≤◌, ◌<◌, refl, ◌∙◌, inl, inr, Bool, true, false, Option, none, some, ltb, length,
  arith, none_not_some, Option-cases,
}
use remnawave_subpage_proxy.Prelude.Int.{max_int64}
use remnawave_subpage_proxy.Prelude.Text.{Bytes, codes, is_empty}
use remnawave_subpage_proxy.Prelude.Assoc.{IsMap}
use remnawave_subpage_proxy.Rewrite.Header.{Header, set}
use remnawave_subpage_proxy.Subcache
use remnawave_subpage_proxy.Subcache.{Entry, Cache, stored}
use remnawave_subpage_proxy.Subcache.Reads.{get-put_self}
use remnawave_subpage_proxy.Config.UserAgents.{CompiledUserAgentRule}
use remnawave_subpage_proxy.Proxy.Body.Laws.{drain_body-IsDrained}
use remnawave_subpage_proxy.Proxy.Body.{Body, buffered, Response, drain_body, rewritable, set_body}
use remnawave_subpage_proxy.Proxy.Outside.{Outside}
use remnawave_subpage_proxy.Proxy.UserAgent.{apply_notice}
use remnawave_subpage_proxy.Proxy.Stages.Replay.{IsReplayed, replay-IsReplayed}
use remnawave_subpage_proxy.Proxy.Stages.{
  RequestInfo, Handled, Proxy, cached_entry, shuffles, shuffle, replaced_by, replace_with_cache,
  stored_entry, store_response, rewritten, modify_fresh, modified, modify_response, replayed_or,
  handle_error,
}

module _ (o : Outside) (p : Proxy o) (info : RequestInfo) where
  -- What reaches the client where the hosts are not shuffled.
  shuffle_off : (resp : Response) → shuffles o p info ≡ false → shuffle o p info resp ≡ resp
  unfolding shuffle
  shuffle_off resp off = rw off refl

  shuffle_plain :
      (resp : Response) → rewritable o.readers.unicode resp ≡ false → shuffle o p info resp ≡ resp
  unfolding shuffle
  shuffle_plain resp off = ground (arith, off)

  store_plain :
      (now : ℕ) (c : Option Cache) (resp : Response)
      → rewritable o.readers.unicode resp ≡ false
      → store_response o now info c resp ≡ record { cache = c; resp = resp }
  unfolding store_response
  store_plain now none resp off = refl
  store_plain now (some c) resp off = ground (arith, off)

  replace_good :
      (now : ℕ) (c : Option Cache) (resp : Response)
      → ltb resp.status 500 ≡ true
      → replace_with_cache o now info c resp ≡ (none, c)
  unfolding replace_with_cache
  replace_good now c resp good = rw good refl

  modify_good :
      (now : ℕ) (c : Option Cache) (resp : Response)
      → ltb resp.status 500 ≡ true
      → modify_response o now p (some info) c resp ≡ modify_fresh o now p info c resp
  unfolding modify_response
  modify_good now c resp good = rw (replace_good now c resp good) refl

  -- An answer of the upstream below status 500 that is a page, or has a status other than 200, is
  -- passed on with nothing changed but the rewritten headers, and the cache stays as it is, with or
  -- without a notice.
  pub modify_response_plain :
      (now : ℕ) (c : Option Cache) (resp : Response)
      → ltb resp.status 500 ≡ true
      → rewritable o.readers.unicode (rewritten o p info resp) ≡ false
      → modify_response o now p (some info) c resp
        ≡ record { cache = c; resp = rewritten o p info resp }
  unfolding modify_fresh apply_notice
  modify_response_plain now c resp good page =
      modify_good now c resp good ∙ (elim (Option-cases info.notice) [
        | inl off ↦
            rw (off, shuffle_plain (rewritten o p info resp) page)
              (store_plain now c (rewritten o p info resp) page)
        | inr (rule, on) ↦ rw (on, page) refl
      ])

  -- A response to a request that has a notice leaves the cache as it is, whatever its status, where the
  -- request has no key.
  pub modify_response_noticed :
      (now : ℕ) (c : Option Cache) (resp : Response) (rule : CompiledUserAgentRule)
      → info.notice ≡ some rule
      → is_empty info.cache_key ≡ true
      → (modify_response o now p (some info) c resp).cache ≡ c
  unfolding modify_response replace_with_cache cached_entry modify_fresh
  modify_response_noticed now none resp rule on bare = ground arith
  modify_response_noticed now (some c) resp rule on bare = ground (arith, on, bare)

  -- The entry that a good response leaves.
  abbrev pub last_good : ℕ → Response → Bytes → Entry
  last_good now served b = record {
    status = served.status;
    header = served.header;
    body = b;
    stored_at = now;
  }

  stored_entry-cache :
      (now : ℕ) (c : Cache) (served : Response) (b : Bytes) (out : Option Bytes × Body)
      → out.0 ≡ some b
      → (stored_entry o now info c served out).cache
        ≡ some (Subcache.put o.order_entries now info.cache_key (some (last_good 0 served b)) c)
  stored_entry-cache now c served b (none, left) h = absurd (none_not_some h)
  stored_entry-cache now c served b (some t, left) h = let same : t ≡ b = cc in rw same refl

  store_fine :
      (now : ℕ) (c : Cache) (served : Response) (b : Bytes)
      → is_empty info.cache_key ≡ false
      → rewritable o.readers.unicode served ≡ true
      → (drain_body c.max_body served.body).0 ≡ some b
      → (store_response o now info (some c) served).cache
        ≡ some (Subcache.put o.order_entries now info.cache_key (some (last_good 0 served b)) c)
  unfolding store_response
  store_fine now c served b keyed fine is_read =
      rw (keyed, fine) (stored_entry-cache now c served b _ is_read)

  cached_found :
      (later : ℕ) (c : Cache) (e : Entry)
      → is_empty info.cache_key ≡ false
      → (Subcache.get later info.cache_key c).0 ≡ some e
      → (cached_entry o later (some c) info).0 ≡ some e
  unfolding cached_entry
  cached_found later c e keyed found = rw keyed found

  -- What the two uses of the cache make of an entry that is found.
  replace_found :
      (later : ℕ) (c : Option Cache) (e : Entry) (bad : Response)
      → (cached_entry o later c info).0 ≡ some e
      → ltb bad.status 500 ≡ false
      → (replace_with_cache o later info c bad).0 ≡ some (replaced_by o bad e)
  unfolding replace_with_cache
  replace_found later c e bad found failed = rw (failed, found) refl

  modified_found :
      (later : ℕ) (bad r : Response) (out : Option Response × Option Cache)
      → out.0 ≡ some r
      → shuffles o p info ≡ false
      → (modified o later p info bad out).resp ≡ r
  modified_found later bad r (none, c) h off = absurd (none_not_some h)
  modified_found later bad r (some t, c) h off = let same : t ≡ r = cc in shuffle_off t off ∙ same

  replayed_or-IsReplayed :
      (other : Handled) (h : Header) (e : Entry) (out : Option Entry × Option Cache)
      → out.0 ≡ some e
      → shuffles o p info ≡ false
      → e.status ≡ 200
      → IsMap e.header
      → IsReplayed o e.header h e.body (replayed_or o other p info h out).0
  replayed_or-IsReplayed other h e (none, c) found off fine distinct = absurd (none_not_some found)
  replayed_or-IsReplayed other h e (some t, c) found off fine distinct =
      let same : t ≡ e = cc in rw same (replay-IsReplayed o p info h e off fine distinct)

  module _ (now : ℕ) (c : Cache) (good : Response) (b : Bytes)
      (keyed : is_empty info.cache_key ≡ false) (unnoticed : info.notice ≡ none)
      (unmoved : shuffles o p info ≡ false)
      (fine : rewritable o.readers.unicode (rewritten o p info good) ≡ true)
      (is_read : (drain_body c.max_body (rewritten o p info good).body).0 ≡ some b)
      (fits : (stored o.order_entries now info.cache_key
          (last_good 0 (rewritten o p info good) b)
          c).bytes
        ≤ c.max_bytes)
      (limited : c.max_body < max_int64) (distinct : IsMap (rewritten o p info good).header) where
    fine-good : ltb good.status 500 ≡ true
    unfolding rewritable rewritten
    fine-good = ground arith

    kept :
        (modify_response o now p (some info) (some c) good).cache
        ≡ some (
            Subcache.put o.order_entries now info.cache_key
              (some (last_good 0 (rewritten o p info good) b))
              c)
    unfolding modify_fresh
    kept =
        rw
          (
            modify_good now (some c) good fine-good,
            unnoticed,
            shuffle_off (rewritten o p info good) unmoved,
          )
          (store_fine now c (rewritten o p info good) b keyed fine is_read)

    small : length b ≤ c.max_body
    small =
        ((drain_body-IsDrained c.max_body (rewritten o p info good).body limited).whole b is_read).1

    found :
        (later : ℕ)
        → later ≤ now + c.ttl
        → (cached_entry o later (modify_response o now p (some info) (some c) good).cache info).0
          ≡ some (last_good now (rewritten o p info good) b)
    found later soon = rw kept (
        cached_found later _ _ keyed (
          get-put_self o.order_entries now info.cache_key (last_good 0 (rewritten o p info good) b)
            c small fits later soon))

    fine_status : (rewritten o p info good).status ≡ 200
    unfolding rewritable
    fine_status = ground arith

    replaced_fine :
        (bad : Response)
        → replaced_by o bad (last_good now (rewritten o p info good) b) ≡ record {
          status = 200;
          header =
              set (rewritten o p info good).header (codes "Content-Length") (o.itoa (length b));
          body = buffered b;
          content_length = some (length b);
          is_chunked = false;
        }
    unfolding set_body
    replaced_fine bad = λ i. record {
      status = fine_status i;
      header = set (rewritten o p info good).header (codes "Content-Length") (o.itoa (length b));
      body = buffered b;
      content_length = some (length b);
      is_chunked = false;
    }

    -- A response that is stored is what a client with the same request info gets from the cache
    -- as the store left it, as long as it is not too old: in place of an answer of the upstream
    -- with a status of 500 or more, and when the upstream cannot be reached. That answer has
    -- status 200, the body that was read, its length as the content length, and else the fields
    -- of the header that was served, which when the upstream cannot be reached go over the fields
    -- that the answer had. The response is stored if the request has a key and no notice, it is
    -- status 200 and no page after the rewriting, no field stands twice in its header, its body
    -- can be read up to the limit, which is below the largest int64, and the cache has room; the
    -- hosts are not shuffled.
    pub replays_last_good :
        (later : ℕ) (bad : Response) (h : Header) (hijacks : Bool)
        → later ≤ now + c.ttl
        → ltb bad.status 500 ≡ false
        → ((modify_response o later p
              (some info)
              (modify_response o now p (some info) (some c) good).cache
              bad).resp
            ≡ record {
              status = 200;
              header =
                  set (rewritten o p info good).header (codes "Content-Length") (o.itoa (length b));
              body = buffered b;
              content_length = some (length b);
              is_chunked = false;
            })
          × IsReplayed o (rewritten o p info good).header h b (
              (handle_error o later p
                (some info)
                (modify_response o now p (some info) (some c) good).cache
                h
                false
                hijacks).0)
    unfolding modify_response handle_error
    replays_last_good later bad h hijacks soon failed =
        let there = found later soon in
        let e = last_good now (rewritten o p info good) b in
        (
          modified_found later bad _ _ (replace_found later _ _ bad there failed) unmoved
              ∙ replaced_fine bad,
          replayed_or-IsReplayed _ h e _ there unmoved fine_status distinct,
        )
