-- ===== src/Text.antt =====
-- Texts as the program checks them: `len`, and `strip` as far as whether it leaves anything.
use Prim.Native.Char.{code}
use simple_harness_service_s.Common.{
  ℕ, Bool, true, ◌&&◌, ◌||◌, not, List, [], ◌∷◌, String, leb, length, ◌==◌, nat_eq, Result,
  raise_if, value_error,
}

-- The code points of a text.
abbrev pub codes : String → List ℕ
codes String.[] = []
codes (String.◌∷◌ c s) = code c ∷ codes s

-- str.isspace of one character
unfoldable pub is_space : ℕ → Bool
is_space c =
    (leb 9 c && leb c 13)
    || ((leb 28 c && leb c 32)
        || (c == 133
            || (c == 160
                || (c == 5760
                    || ((leb 8192 c && leb c 8202)
                        || (c == 8232
                            || (c == 8233 || (c == 8239 || (c == 8287 || c == 12288)))))))))

-- not value.strip()
unfoldable pub is_blank : List ℕ → Bool
unfolding is_space
is_blank [] = true
is_blank (c ∷ cs) = is_space c && is_blank cs

-- `_identity` of realtime/recovery.py, on a `str`
unfoldable pub check_identity : String → Result (Unit {0})
unfolding is_blank
check_identity value =
    raise_if (is_blank (codes value) || not (leb (length (codes value)) 512)) value_error
