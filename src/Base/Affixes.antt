-- ===== src/Base/Affixes.antt =====
-- What the tests for a prefix and a suffix say.
use mathlib.Core.Path.{◌≡◌, refl, sym, ap, ◌∙◌}
use mathlib.Core.Logic.{◌↔◌}
use mathlib.Core.Bool.{true, false}
use mathlib.Core.Option.{Option, none, some}
use mathlib.Core.List.{[], ◌∷◌, ◌++◌, reverse, reverse-append, reverse-reverse}
use native.Mathlib.Omega.{arith}
use meme.Base.Tests.{==_iff, ==_refl}
use meme.Base.Strings.{Text, strip_prefix, has_prefix, has_suffix}

strip_prefix_sound : (p s r : Text) → strip_prefix p s ≡ some r → s ≡ p ++ r
unfolding strip_prefix
strip_prefix_sound [] s r h = ground arith
strip_prefix_sound (c ∷ p) [] r h = cc
strip_prefix_sound (c ∷ p) (d ∷ s) r h = ground (arith, strip_prefix_sound p s r, ==_iff c d)

pub strip_prefix-append : (p r : Text) → strip_prefix p (p ++ r) ≡ some r
unfolding strip_prefix
strip_prefix-append [] r = refl
strip_prefix-append (c ∷ p) r = rw (==_refl c) (strip_prefix-append p r)

-- A text has a prefix exactly if it is the prefix and something behind it.
pub has_prefix_iff : (s p : Text) → (has_prefix s p ≡ true) ↔ ((r : Text) × (s ≡ p ++ r))
unfolding has_prefix
has_prefix_iff s p =
    (found (strip_prefix p s) refl, λ (r, e). rw (e, has_prefix, strip_prefix-append p r) refl)
  where
    found :
        (o : Option Text)
        → strip_prefix p s ≡ o
        → elim o [ none ↦ false | some r ↦ true ] ≡ true
        → (r : Text) × (s ≡ p ++ r)
    found none e h = cc
    found (some r) e h = (r, strip_prefix_sound p s r e)

-- A text has a suffix exactly if it is something and the suffix behind it.
pub has_suffix_iff : (s p : Text) → (has_suffix s p ≡ true) ↔ ((r : Text) × (s ≡ r ++ p))
unfolding has_suffix
has_suffix_iff s p = (
  λ h.
      let (r, e) = (has_prefix_iff (reverse s) (reverse p)).0 h in
      (
        reverse r,
        sym (reverse-reverse s)
            ∙ ap reverse e
            ∙ reverse-append (reverse p) r
            ∙ ap (λ q. reverse r ++ q) (reverse-reverse p),
      ),
  λ (r, e).
      (has_prefix_iff (reverse s) (reverse p)).1 (reverse r, ap reverse e ∙ reverse-append r p),
)
