-- ===== src/Panel/Client/Laws.antt =====
-- internal/panel/client.go: where the API token goes, and what an answer means.
use remnawave_subpage_proxy.Prelude.{
  ◌≤◌, ◌≡◌, refl, ap, ◌∙◌, inl, inr, true, ◌++◌, Option, none, some, length, all, arith, Bool-cases,
}
use remnawave_subpage_proxy.Prelude.Text.{Bytes, codes}
use remnawave_subpage_proxy.Panel.Client.{
  Client, Query, Reply, is_uuid_byte, is_short_uuid, trimmed_base, Network, answered, info_query,
  subscription_info,
}

-- Bytes of a short UUID are escaped as they stand.
abbrev pub KeepsPlain : (Bytes → Bytes) → Type 0
KeepsPlain path_escape = (s : Bytes) → all is_uuid_byte s ≡ true → path_escape s ≡ s

-- A request for the subscription of some short UUID below the base of the panel.
pub record IsInfoQuery (c : Client) (q : Query) : Type 0 where
  pub uuid : Bytes
  pub plain : all is_uuid_byte uuid ≡ true
  pub short : length uuid ≤ 128
  pub path : q.path ≡ trimmed_base c.base ++ (codes "/api/sub/" ++ (uuid ++ codes "/info"))

module _ (n : Network) (c : Client) (short_uuid real_ip : Bytes) where
  query-IsInfoQuery :
      KeepsPlain n.path_escape
      → is_short_uuid short_uuid ≡ true
      → IsInfoQuery c (info_query n c short_uuid real_ip)
  unfolding is_short_uuid info_query
  query-IsInfoQuery keeps ok =
      let plain : all is_uuid_byte short_uuid ≡ true = ground (arith, ok) in
      record {
        uuid = short_uuid;
        plain = plain;
        short = ground (arith, ok);
        path = rw (keeps short_uuid plain) refl;
      }

  same_answer :
      (send : Query → Option Reply) (r : Option Reply)
      → answered (record n { send = send }) r ≡ answered n r
  unfolding answered
  same_answer send none = refl
  same_answer send (some r) = refl

  -- With two networks that answer alike to the requests for a subscription below the panel's base, whose
  -- path holds nothing but the bytes of a short UUID, the answer is the same: no other request is sent.
  pub subscription_info_confined :
      (send : Query → Option Reply)
      → KeepsPlain n.path_escape
      → ((q : Query) → IsInfoQuery c q → send q ≡ n.send q)
      → subscription_info (record n { send = send }) c short_uuid real_ip
        ≡ subscription_info n c short_uuid real_ip
  unfolding subscription_info info_query
  subscription_info_confined send keeps alike = elim (Bool-cases (is_short_uuid short_uuid)) [
    | inr bad ↦ rw bad refl
    | inl ok ↦
        let same : send (info_query n c short_uuid real_ip)
            ≡ n.send (info_query n c short_uuid real_ip) =
          alike _ (query-IsInfoQuery keeps ok) in
        rw ok (same_answer send (send (info_query n c short_uuid real_ip)) ∙ ap (answered n) same)
  ]
