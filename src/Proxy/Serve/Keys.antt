-- ===== src/Proxy/Serve/Keys.antt =====
-- internal/proxy/proxy.go: which requests share an entry of the fallback cache.
use remnawave_subpage_proxy.Prelude.{◌≡◌, false}
use remnawave_subpage_proxy.Prelude.Text.{has_byte}
use remnawave_subpage_proxy.Rewrite.Engine.{Request}
use remnawave_subpage_proxy.Proxy.Outside.{Outside}
use remnawave_subpage_proxy.Proxy.Stages.{Proxy}

-- No zero byte in what a key is made of before its last part.
abbrev pub IsClean : Request → Type 0
IsClean rq =
    (has_byte 0 rq.short_uuid ≡ false)
    × (has_byte 0 rq.client_type ≡ false)
    × (has_byte 0 rq.user_agent ≡ false)
