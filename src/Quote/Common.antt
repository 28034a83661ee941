-- ===== src/Quote/Common.antt =====
-- `QuoteError` and `QuoteErrorKind` (src/error.rs, lines 3 to 32).
use subprocess.Prelude.{ℕ, List}

pub data QuoteErrorKind : Type 0 where
  unterminated_single_quote unterminated_double_quote trailing_backslash : QuoteErrorKind
  non_utf8 unrepresentable_char : QuoteErrorKind

pub record QuoteError : Type 0 where
  pub pos : ℕ
  pub kind : QuoteErrorKind

abbrev pub Bytes : Type 0
Bytes = List ℕ
