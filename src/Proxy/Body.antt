-- ===== src/Proxy/Body.antt =====
-- internal/proxy/body.go: the bodies of responses. A body that is not in memory is what its reads
-- return, up to the end or an error.
pub mod Laws
use remnawave_subpage_proxy.Prelude.{
  ℕ, zero, suc, ◌+◌, ◌-◌, Bool, true, false, not, ◌&&◌, ◌||◌, List, [], ◌∷◌, ◌++◌, Option, none,
  some, ltb, leb, ◌==◌, if◌then◌else◌, length, take, drop,
}
use remnawave_subpage_proxy.Prelude.Int.{pos, pos_part, add_int64}
use remnawave_subpage_proxy.Prelude.Text.{Bytes, codes, bytes_eq, is_empty, has_prefix, trim_space}
use remnawave_subpage_proxy.Prelude.Text.Case.{Unicode, to_lower}
use remnawave_subpage_proxy.Hosts.Clash.{contains_text}
use remnawave_subpage_proxy.Rewrite.Header.{Header, get, set, del}

pub data Stream : Type 0 where
  end_of_body : Stream
  broken : Stream
  chunk : Bytes → Stream → Stream

-- `buffered` is a `bufferedBody` of which nothing has been read.
pub data Body : Type 0 where
  no_body : Body
  buffered : Bytes → Body
  streamed : Stream → Body

-- `http.Response`; the content length is not sent on its own, and `TransferEncoding` is whether it is
-- chunked.
pub record Response : Type 0 where
  pub status : ℕ
  pub header : Header
  pub body : Body
  pub content_length : Option ℕ
  pub is_chunked : Bool

-- What the reads below a limit have brought, whether one failed, and what they have left.
pub record Read : Type 0 where
  pub bytes : Bytes
  pub is_failed : Bool
  pub rest : Stream

abbrev pub onto_read : Bytes → Read → Read
onto_read c r = record r { bytes = c ++ r.bytes }

-- `readUpTo` over a reader that is limited to `limit` bytes. Of a chunk that goes past the limit the
-- rest stays unread.
unfoldable pub read_limited : ℕ → Stream → Read
read_limited limit end_of_body = record { bytes = []; is_failed = false; rest = end_of_body }
read_limited limit broken = record { bytes = []; is_failed = ltb 0 limit; rest = broken }
read_limited limit (chunk c s) =
    let all_of_it = onto_read c (read_limited (limit - length c) s) in
    if leb (length c) limit
    then all_of_it
    else record { bytes = take limit c; is_failed = false; rest = chunk (drop limit c) s }

-- The limit of `readUpTo`: the int64 `maxBody + 1` as `io.LimitReader` takes it, which reads nothing at a
-- limit below zero.
unfoldable pub read_limit : ℕ → ℕ
read_limit max_body = pos_part (add_int64 (pos max_body) (pos 1))

-- `drainBody`: the bytes where they are all there and not too many, and the body that is left behind.
unfoldable pub drain_body : ℕ → Body → Option Bytes × Body
unfolding read_limited read_limit
drain_body max_body no_body = (none, no_body)
drain_body max_body (buffered b) = (if leb (length b) max_body then some b else none, buffered b)
drain_body max_body (streamed s) =
    let r = read_limited (read_limit max_body) s in
    if r.is_failed || ltb max_body (length r.bytes)
    then (none, streamed (chunk r.bytes r.rest))
    else (some r.bytes, buffered r.bytes)

unfoldable pub is_html : Unicode → Header → Bool
is_html u h = contains_text (codes "text/html") (to_lower u (get h (codes "Content-Type")))

-- `rewritable`
unfoldable pub rewritable : Unicode → Response → Bool
unfolding is_html
rewritable u r = r.status == 200 && not (is_html u r.header)

unfoldable pub is_compressed : Unicode → Header → Bool
is_compressed u h =
    let enc = to_lower u (trim_space (get h (codes "Content-Encoding"))) in
    not (is_empty enc) && not (bytes_eq enc (codes "identity"))

-- `setBody`; `itoa` is `strconv.Itoa`.
unfoldable pub set_body : (ℕ → Bytes) → Bytes → Response → Response
set_body itoa b r = record r {
  header = set r.header (codes "Content-Length") (itoa (length b));
  body = buffered b;
  content_length = some (length b);
  is_chunked = false;
}
