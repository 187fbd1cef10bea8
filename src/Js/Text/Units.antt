-- ===== src/Js/Text/Units.antt =====
-- UTF-16 code units against UTF-8 bytes.
use Prim.Native.Char.{len_utf8, len_utf8_def}
use Prim.Native.String.len
use x402_worker_template.Prelude.{◌≤◌, String, Char, code, len, arith, ltb, if◌then◌else◌}
use x402_worker_template.Js.Text.{utf16_length}

units-len_utf8 : (c : Char) → (if ltb (code c) 65536 then 1 else 2) ≤ len_utf8 c
units-len_utf8 c = rw (len_utf8_def c) (ground arith)

-- A text has at most as many UTF-16 code units as UTF-8 bytes.
pub utf16_length-len : (s : String) → utf16_length s ≤ len s
unfolding utf16_length
utf16_length-len String.[] = omega arith
utf16_length-len (String.◌∷◌ c s) =
    rw (len.cons c s) (omega (arith, units-len_utf8 c, utf16_length-len s))
