-- ===== src/Proto/Clipboard.antt =====
-- crates/oxutrm-proto/src/clipboard.rs: a remote program's clipboard write.
use oxutrm.Base.{ℕ, ℕ_discrete, Option, none, some, ltb, if◌then◌else◌, ok, err}
use oxutrm.Proto.Types.{TextField, max_clipboard, Checked, text_too_long}
use oxutrm.Proto.Text.{Text, byte_len}

pub data ClipboardTarget : Type 0 where
  clipboard selection : ClipboardTarget

pub record ClipboardCopy : Type 0 where
  pub target : ClipboardTarget
  pub text : Text

pub record Clipboard : Type 0 where
  pub serial : ℕ  -- u32
  pub copy : Option ClipboardCopy

unfoldable pub Clipboard-discrete : Discrete Clipboard
Clipboard-discrete = hlevel ℕ_discrete

abbrev pub no_clipboard : Clipboard
no_clipboard = record { serial = 0; copy = none }

unfoldable pub check_clipboard : Clipboard → Checked
check_clipboard c = elim c.copy [
  | none ↦ ok tt
  | some copy ↦
      if ltb max_clipboard (byte_len copy.text)
      then err (text_too_long TextField.clipboard (byte_len copy.text) max_clipboard)
      else ok tt
]
