-- ===== src/Base/Texts.antt =====
-- Python's `or` on texts.
use Prim.Native.String.{String}
use mathlib.Core.Option.{Option, none, some}
use text.Mathlib.Text.{◌==◌}
use novapanda.Base.Test.{if◌then◌else◌}

-- `t or d` where `t` may be `None`
abbrev pub text_or : Option String → String → String
text_or none d = d
text_or (some s) d = if s == "" then d else s

-- `s or d`
abbrev pub nonempty_or : String → String → String
nonempty_or s d = if s == "" then d else s
