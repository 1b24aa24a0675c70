-- ===== src/Prelude/Text/Laws.antt =====
-- What `split`, `trim` and the decimal digits do to each other.
use Prim.Native.Char.{Char, code}
use Prim.Native.String.{String}
use Prim.Native.Nat.{ℕ}
use mathlib.Core.Path.{◌≡◌, refl, ap, ◌∙◌}
use mathlib.Core.Bool.{true, false}
use mathlib.Core.List.{[], ◌∷◌}
use native.Mathlib.Omega.{arith}
use xjp_deploy_agent.Prelude.Tests.{nat_beq}
use xjp_deploy_agent.Prelude.Text.{◌⊕◌, split, is_whitespace, trim_start, trim_end, trim}

-- No character of the text has the code.
abbrev pub Lacks : ℕ → String → Type 0
Lacks separator String.[] = Unit
Lacks separator (String.◌∷◌ c s) = (nat_beq (code c) separator ≡ false) × Lacks separator s

-- No character of the text is white space.
abbrev pub IsSolid : String → Type 0
IsSolid String.[] = Unit
IsSolid (String.◌∷◌ c s) = (is_whitespace (code c) ≡ false) × IsSolid s

pub split-plain : (separator : ℕ) (s : String) → Lacks separator s → split separator s ≡ s ∷ []
unfolding split
split-plain separator String.[] h = refl
split-plain separator (String.◌∷◌ c s) h = rw (split-plain separator s h.1, split, h.0) refl

-- A text without the separator, the separator, and the rest.
pub split-append :
    (separator : ℕ) (c : Char) (s t : String)
    → nat_beq (code c) separator ≡ true
    → Lacks separator s
    → split separator (s ⊕ String.◌∷◌ c t) ≡ s ∷ split separator t
unfolding split
split-append separator c String.[] t e h = rw (e, split) refl
split-append separator c (String.◌∷◌ d s) t e h =
    rw (split-append separator c s t e h.1, split, h.0) refl

pub Lacks-append :
    (separator : ℕ) (s t : String) → Lacks separator s → Lacks separator t → Lacks separator (s ⊕ t)
Lacks-append separator String.[] t a b = b
Lacks-append separator (String.◌∷◌ c s) t a b = (a.0, Lacks-append separator s t a.1 b)

pub IsSolid-append : (s t : String) → IsSolid s → IsSolid t → IsSolid (s ⊕ t)
IsSolid-append String.[] t a b = b
IsSolid-append (String.◌∷◌ c s) t a b = (a.0, IsSolid-append s t a.1 b)

trim_start-solid : (s : String) → IsSolid s → trim_start s ≡ s
unfolding trim_start
trim_start-solid String.[] h = refl
trim_start-solid (String.◌∷◌ c s) h = rw (trim_start-solid s h.1, trim_start, h.0) refl

trim_end-solid : (s : String) → IsSolid s → trim_end s ≡ s
unfolding trim_end
trim_end-solid String.[] h = refl
trim_end-solid (String.◌∷◌ c s) h = ground (arith, trim_end-solid s h.1, h.0)

pub trim-solid : (s : String) → IsSolid s → trim s ≡ s
unfolding trim
trim-solid s h = ap trim_end (trim_start-solid s h) ∙ trim_end-solid s h
