-- ===== src/Py/Printer.antt =====
-- `str` and `repr` of any value, which are the runtime's.
use minority_prophet_border.Platform.{Platform}
use minority_prophet_border.Py.Value.{Value, str}
use minority_prophet_border.Prelude.{String}

pub record Printer : Type 0 where
  pub base : Platform
  pub str_of : Value → String
  pub repr_of : Value → String

-- An f-string's text of a value, and `str(value)`
abbrev pub text_of : Printer → Value → String
text_of printer (str s) = s
text_of printer v = printer.str_of v
