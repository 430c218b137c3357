-- ===== src/Subinfo/Floats.antt =====
-- The floating-point arithmetic and the clock that internal/subinfo/vars.go calls: Go's float64 and
-- package `time`, as a parameter.
use remnawave_subpage_proxy.Prelude.{Bool, Option}
use remnawave_subpage_proxy.Prelude.Int.{ℤ}
use remnawave_subpage_proxy.Prelude.Text.{Bytes}

pub record Platform : Type 1 where
  pub Float : Type 0
  pub float64 : ℤ → Float
  pub div : Float → Float → Float
  pub mul : Float → Float → Float
  pub pow : Float → Float → Float
  -- `a >= b`
  pub ge : Float → Float → Bool
  pub round : Float → Float
  pub ceil : Float → Float
  -- `int(x)`
  pub to_int : Float → ℤ
  -- `strconv.FormatFloat(x, 'f', decimals, 64)`
  pub format_float : Float → ℤ → Bytes
  -- `strconv.FormatInt(n, 10)`
  pub format_int : ℤ → Bytes
  pub Time : Type 0
  pub now : Time
  pub after : Time → Time → Bool
  -- `expiry.Sub(now).Hours()`
  pub hours_until : Time → Time → Float
  -- `time.Unix(n, 0)`, `t.Unix()`, `time.Parse(time.RFC3339, …)`, and `t.In(zone).Format(layout)`
  pub of_unix : ℤ → Time
  pub to_unix : Time → ℤ
  pub parse_rfc3339 : Bytes → Option Time
  pub format_time : Time → Bytes → Bytes → Bytes
