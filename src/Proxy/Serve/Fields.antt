-- ===== src/Proxy/Serve/Fields.antt =====
-- The fields of the header that internal/proxy/proxy.go sends to the upstream: one field is set or
-- taken out without the others.
use remnawave_subpage_proxy.Prelude.{◌≡◌, refl, inl, inr, false, [], Bool-cases}
use remnawave_subpage_proxy.Prelude.Text.{Bytes, codes, bytes_eq, is_empty}
use remnawave_subpage_proxy.Prelude.Assoc.{
  IsMap, lookup-remove_self, lookup-remove_ne, remove-IsMap,
}
use remnawave_subpage_proxy.Rewrite.Header.{
  Header, canonical, capitalise, first_value, get, set, del,
}
use remnawave_subpage_proxy.Rewrite.Engine.Frame.{lookup-set_ne, lookup-set_self}
use remnawave_subpage_proxy.Proxy.Serve.{set_unless_empty}

pub get-set_self : (h : Header) (name value : Bytes) → get (set h name value) name ≡ value
unfolding get first_value
get-set_self h name value = rw (lookup-set_self h name value) refl

pub get-set_ne :
    (h : Header) (name value other : Bytes)
    → bytes_eq (canonical name) (canonical other) ≡ false
    → get (set h name value) other ≡ get h other
unfolding get first_value
get-set_ne h name value other apart = rw (lookup-set_ne h name value (canonical other) apart) refl

pub get-del_ne :
    (h : Header) (name other : Bytes)
    → bytes_eq (canonical name) (canonical other) ≡ false
    → get (del h name) other ≡ get h other
unfolding get first_value del
get-del_ne h name other apart =
    rw (lookup-remove_ne (canonical name) (canonical other) h apart) refl

pub get-del_self : (h : Header) (name : Bytes) → IsMap h → get (del h name) name ≡ []
unfolding get first_value del
get-del_self h name m = rw (lookup-remove_self (canonical name) h m) refl

pub names_apart :
    (bytes_eq (canonical (codes "X-Forwarded-Proto")) (canonical (codes "X-Forwarded-For")) ≡ false)
    × (bytes_eq (canonical (codes "X-Forwarded-Host")) (canonical (codes "X-Forwarded-For"))
        ≡ false)
    × (bytes_eq (canonical (codes "X-Forwarded-Host")) (canonical (codes "X-Forwarded-Proto"))
        ≡ false)
    × (bytes_eq (canonical (codes "Accept-Encoding")) (canonical (codes "X-Forwarded-For")) ≡ false)
    × (bytes_eq (canonical (codes "Accept-Encoding")) (canonical (codes "X-Forwarded-Proto"))
        ≡ false)
unfolding canonical capitalise bytes_eq
names_apart = (refl, refl, refl, refl, refl)

pub accept_apart :
    (bytes_eq (canonical (codes "X-Forwarded-For")) (canonical (codes "Accept-Encoding")) ≡ false)
    × (bytes_eq (canonical (codes "X-Forwarded-Proto")) (canonical (codes "Accept-Encoding"))
        ≡ false)
    × (bytes_eq (canonical (codes "X-Forwarded-Host")) (canonical (codes "Accept-Encoding"))
        ≡ false)
unfolding canonical capitalise bytes_eq
accept_apart = (refl, refl, refl)

pub accept_host :
    bytes_eq (canonical (codes "Accept-Encoding")) (canonical (codes "X-Forwarded-Host")) ≡ false
unfolding canonical capitalise bytes_eq
accept_host = refl

pub get-unless_ne :
    (h : Header) (name value other : Bytes)
    → bytes_eq (canonical name) (canonical other) ≡ false
    → get (set_unless_empty h name value) other ≡ get h other
get-unless_ne h name value other apart = elim (Bool-cases (is_empty value)) [
  | inl none_given ↦ rw none_given refl
  | inr given ↦ rw given (get-set_ne h name value other apart)
]

pub get-unless_self :
    (h : Header) (name value : Bytes)
    → is_empty value ≡ false
    → get (set_unless_empty h name value) name ≡ value
get-unless_self h name value given = rw given (get-set_self h name value)

pub set-IsMap : (h : Header) (name value : Bytes) → IsMap h → IsMap (set h name value)
unfolding set
set-IsMap h name value m =
    (lookup-remove_self (canonical name) h m, remove-IsMap (canonical name) h m)

pub unless-IsMap :
    (h : Header) (name value : Bytes) → IsMap h → IsMap (set_unless_empty h name value)
unless-IsMap h name value m = elim (Bool-cases (is_empty value)) [
  | inl none_given ↦ rw none_given m
  | inr given ↦ rw given (set-IsMap h name value m)
]
