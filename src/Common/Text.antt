-- ===== src/Common/Text.antt =====
-- Python's `str.strip` over native texts.
use Prim.Native.Char.{code}
use Prim.Native.String.{String}
use mathlib.Core.Bool.{Bool, true, false, ◌&&◌, ◌||◌}
use Prim.Native.Nat.{ℕ}
use mathlib.Core.Path.{◌≡◌, refl}
use native.Mathlib.Decide.{ℕ_discrete}
use nano_qwen3tts_vllm.Common.Tests.{if◌then◌else◌, leb}
use nano_qwen3tts_vllm.Common.Equality.{◌==◌, nat_eq}

-- `str.isspace` of a character: tab to carriage return, the separators, and the Unicode spaces.
unfoldable pub is_space : ℕ → Bool
is_space c =
    (leb 9 c && leb c 13)
    || ((leb 28 c && leb c 32)
        || (c == 0x85
            || (c == 0xa0
                || (c == 0x1680
                    || ((leb 0x2000 c && leb c 0x200a)
                        || (c == 0x2028
                            || (c == 0x2029 || (c == 0x202f || (c == 0x205f || c == 0x3000)))))))))

abbrev pub is_empty : String → Bool
is_empty String.[] = true
is_empty (String.◌∷◌ c s) = false

unfoldable pub lstrip : String → String
unfolding is_space
lstrip String.[] = String.[]
lstrip (String.◌∷◌ c s) = if is_space (code c) then lstrip s else String.◌∷◌ c s

unfoldable pub rstrip : String → String
unfolding is_space
rstrip String.[] = String.[]
rstrip (String.◌∷◌ c s) =
    let r = rstrip s in if is_empty r && is_space (code c) then String.[] else String.◌∷◌ c r

unfoldable pub strip : String → String
unfolding lstrip rstrip
strip s = rstrip (lstrip s)

use_strip : strip "  a b\n" ≡ "a b"
unfolding strip ℕ_discrete
use_strip = refl
