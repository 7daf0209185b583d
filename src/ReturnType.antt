-- ===== src/ReturnType.antt =====
-- include/ReturnType.hpp: success, or an error with its text.
use Prim.Native.String.{String}
use easy_voice_call.Base.{zero, Bool, true, false}
use easy_voice_call.Base.Int.{ℤ, pos}

-- The text of an error: a literal, or the decimal numeral that std::to_string makes of a number.
pub data ErrorMessage : Type 0 where
  empty : ErrorMessage
  literal : String → ErrorMessage
  decimal : ℤ → ErrorMessage

pub record ReturnType : Type 0 where
  pub ok : Bool
  pub error_message : ErrorMessage

-- ReturnType(int): 0 is success, and every other number, `true` included, is an error.
unfoldable pub of_int : ℤ → ReturnType
of_int (pos zero) = record { ok = true; error_message = empty }
of_int n = record { ok = false; error_message = decimal n }

-- ReturnType(const char *)
unfoldable pub of_text : String → ReturnType
of_text error = record { ok = false; error_message = literal error }
