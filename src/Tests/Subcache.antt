-- ===== src/Tests/Subcache.antt =====
-- The fallback cache at concrete contents.
use remnawave_subpage_proxy.Prelude.{◌≡◌, ◌≤◌, refl, false, [], ◌∷◌, some, arith}
use remnawave_subpage_proxy.Prelude.Text.{codes, bytes_eq}
use remnawave_subpage_proxy.Prelude.Assoc.{Visits, lookup, remove}
use remnawave_subpage_proxy.Subcache.{
  Entry, Entries, Cache, size, size_header, remove_locked, get, stored, put, evict_locked,
  drop_expired, drop_oldest,
}
use remnawave_subpage_proxy.Subcache.Accounting.{IsValid, total, put-IsValid}
use remnawave_subpage_proxy.Subcache.Budget.{put-within}
use remnawave_subpage_proxy.Subcache.Reads.{get-put_self, get-put_ne}

abbrev entry : Entry
entry = record { status = 200; header = []; body = 1 ∷ 2 ∷ 3 ∷ []; stored_at = 10 }

abbrev other_entry : Entry
other_entry = record { status = 200; header = []; body = 4 ∷ 5 ∷ []; stored_at = 20 }

abbrev cache : Cache
cache = record {
  ttl = 100;
  max_bytes = 4;
  max_body = 4;
  entries = (codes "a", entry) ∷ [];
  bytes = 3;
}

abbrev as_stored : Entries → Entries
as_stored m = m

cache-IsValid : IsValid cache
unfolding total lookup size size_header
cache-IsValid = record { counted = refl; distinct = (refl, tt) }

as_stored-Visits : Visits as_stored
as_stored-Visits = record { all_visited = λ m e. e; all_present = λ m h. h }

put-IsValid_example : IsValid (put as_stored 30 (codes "b") (some other_entry) cache)
put-IsValid_example = put-IsValid as_stored 30 (codes "b") (some other_entry) cache cache-IsValid

put-within_example : (put as_stored 30 (codes "b") (some other_entry) cache).bytes ≤ cache.max_bytes
put-within_example =
    put-within as_stored as_stored-Visits 30 (codes "b") (some other_entry) cache cache-IsValid
      (omega arith) (omega arith)

-- The older entry makes room.
older_goes :
    (put as_stored 30 (codes "b") (some other_entry) cache).entries
    ≡ (codes "b", record other_entry { stored_at = 30 }) ∷ []
unfolding put stored remove_locked lookup remove bytes_eq evict_locked drop_expired drop_oldest size
    size_header
older_goes = refl

abbrev roomy : Cache
roomy = record cache { max_bytes = 100 }

fits : (stored as_stored 30 (codes "b") other_entry roomy).bytes ≤ roomy.max_bytes
unfolding stored remove_locked lookup bytes_eq size size_header
fits = omega arith

get-put_self_example :
    (get 130 (codes "b") (put as_stored 30 (codes "b") (some other_entry) roomy)).0
    ≡ some (record other_entry { stored_at = 30 })
get-put_self_example =
    get-put_self as_stored 30 (codes "b") other_entry roomy (omega arith) fits 130 (omega arith)

apart : bytes_eq (codes "b") (codes "a") ≡ false
unfolding bytes_eq
apart = refl

get-put_ne_example :
    (get 50 (codes "a") (put as_stored 30 (codes "b") (some other_entry) roomy)).0
    ≡ (get 50 (codes "a") roomy).0
get-put_ne_example =
    get-put_ne as_stored 30 (codes "b") other_entry roomy (omega arith) fits 50 (codes "a") apart

found : lookup (codes "a") cache.entries ≡ some entry
unfolding lookup bytes_eq
found = refl
