-- ===== src/Base/Unicode.antt =====
-- What Go's strings and unicode packages know of characters: a parameter of what uses it.
use mulligan.Base.{ℕ, ◌≡◌, ◌<◌, Bool, false}
use mulligan.Base.Text.{Bytes}

-- `strings.ToUpper`, `strings.ToLower`, `strings.TrimSpace`, `strings.EqualFold` and
-- `unicode.IsPrint`, which admits no control character.
pub record Unicode : Type 0 where
  pub to_upper : Bytes → Bytes
  pub to_lower : Bytes → Bytes
  pub trim_space : Bytes → Bytes
  pub equal_fold : Bytes → Bytes → Bool
  pub is_print : ℕ → Bool
  pub is_print_control : (c : ℕ) → c < 0x20 → is_print c ≡ false
