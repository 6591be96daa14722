-- ===== src/Common/Text/Words.antt =====
-- Texts that are one word.
use Prim.Native.Char.{code}
use kinbridge_server.Prelude.{
  ◌≡◌, refl, Bool, true, false, ◌&&◌, String, [], ◌∷◌, eqb, ◌==◌, string_eq,
}
use kinbridge_server.Common.Text.{split, extend, is_whitespace, trim, trim_start, trim_end}

-- No white space, and no bar.
abbrev pub IsWord : String → Type 0
IsWord String.[] = Unit
IsWord (String.◌∷◌ c s) =
    (is_whitespace (code c) ≡ false)
    × (eqb (code c) b' ' ≡ false)
    × (eqb (code c) b'|' ≡ false)
    × IsWord s

pub split-space : (s : String) → IsWord s → split b' ' s ≡ s ∷ []
unfolding split extend
split-space String.[] h = refl
split-space (String.◌∷◌ c s) h = rw (h.1, split-space s h.3) refl

pub split-bar : (s : String) → IsWord s → split b'|' s ≡ s ∷ []
unfolding split extend
split-bar String.[] h = refl
split-bar (String.◌∷◌ c s) h = rw (h.2, split-bar s h.3) refl

pub and_false : (b : Bool) → (b && false) ≡ false
and_false true = refl
and_false false = refl

pub trim_end-word : (s : String) → IsWord s → trim_end s ≡ s
unfolding trim_end
trim_end-word String.[] h = refl
trim_end-word (String.◌∷◌ c s) h = rw (trim_end-word s h.3, h.0, and_false (s == "")) refl

pub trim-word : (s : String) → IsWord s → trim s ≡ s
unfolding trim trim_start
trim-word String.[] h = refl
trim-word (String.◌∷◌ c s) h = rw h.0 (trim_end-word (String.◌∷◌ c s) h)
