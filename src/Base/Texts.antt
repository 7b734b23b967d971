-- ===== src/Base/Texts.antt =====
-- Text as the list of its character codes, with a Boolean equality, and `join` and `split` at a
-- separator.
use Prim.Native.Nat.{ℕ}
use Prim.Native.Char.{code}
use Prim.Native.String.{String}
use mathlib.Core.Path.{◌≡◌, refl, ap, ◌∙◌}
use mathlib.Core.Logic.{◌≢◌, ◌↔◌}
use mathlib.Core.Bool.{Bool, true, false, ◌&&◌, ◌||◌}
use mathlib.Core.List.{List, [], ◌∷◌, ◌++◌, append-nil, append_assoc}
use native.Mathlib.Omega.{arith}
use offchain_service.Base.Bools.{◌==◌, if◌then◌else◌}
use offchain_service.Base.Lists.{All, All-append}

abbrev pub Text : Type 0
Text = List ℕ

abbrev pub codes : String → Text
codes String.[] = []
codes (String.◌∷◌ c s) = code c ∷ codes s

abbrev pub text_eq : Text → Text → Bool
text_eq [] [] = true
text_eq [] (_ ∷ _) = false
text_eq (_ ∷ _) [] = false
text_eq (a ∷ s) (b ∷ t) = a == b && text_eq s t

pub text_eq_refl : (s : Text) → text_eq s s ≡ true
text_eq_refl [] = refl
text_eq_refl (a ∷ s) = ground (arith, text_eq_refl s)

pub text_eq_sound : (s t : Text) → text_eq s t ≡ true → s ≡ t
text_eq_sound [] [] h = refl
text_eq_sound [] (b ∷ t) h = cc
text_eq_sound (a ∷ s) [] h = cc
text_eq_sound (a ∷ s) (b ∷ t) h = ground (arith, text_eq_sound s t)

pub text_eq_iff : (s t : Text) → (text_eq s t ≡ true) ↔ (s ≡ t)
text_eq_iff s t = (text_eq_sound s t, λ e. rw e (text_eq_refl t))

abbrev pub starts_with : Text → Text → Bool
starts_with [] _ = true
starts_with (_ ∷ _) [] = false
starts_with (a ∷ s) (b ∷ t) = a == b && starts_with s t

-- `text.includes(part)`
abbrev pub includes_text : Text → Text → Bool
includes_text part [] = starts_with part []
includes_text part (c ∷ s) = starts_with part (c ∷ s) || includes_text part s

-- `parts.join(sep)` for one part and more.
abbrev pub join : ℕ → Text → List Text → Text
join sep s [] = s
join sep s (t ∷ ts) = s ++ sep ∷ join sep t ts

-- `text.split(sep)`, with the part read so far.
abbrev pub split_from : ℕ → Text → Text → List Text
split_from sep cur [] = cur ∷ []
split_from sep cur (c ∷ s) =
    let closed = cur ∷ split_from sep [] s in
    let longer = split_from sep (cur ++ c ∷ []) s in if c == sep then closed else longer

abbrev pub split : ℕ → Text → List Text
split sep = split_from sep []

-- No character of the text is the separator.
abbrev pub IsFree : ℕ → Text → Type 0
IsFree sep = All (λ c. c ≢ sep)

IsFree-append : (sep : ℕ) (s t : Text) → IsFree sep s → IsFree sep t → IsFree sep (s ++ t)
IsFree-append sep = All-append (λ c. c ≢ sep)

-- The first part is read up to the separator that follows it.
split_from-append :
    (sep : ℕ) (cur s rest : Text)
    → IsFree sep s
    → split_from sep cur (s ++ sep ∷ rest) ≡ (cur ++ s) ∷ split_from sep [] rest
split_from-append sep cur [] rest h = rw append-nil (ground arith)
split_from-append sep cur (c ∷ s) rest (ne, h) =
    ground (arith, split_from-append sep (cur ++ c ∷ []) s rest h, append_assoc cur (c ∷ []) s)

split_from-free : (sep : ℕ) (cur s : Text) → IsFree sep s → split_from sep cur s ≡ (cur ++ s) ∷ []
split_from-free sep cur [] h = rw append-nil
split_from-free sep cur (c ∷ s) (ne, h) =
    ground (arith, split_from-free sep (cur ++ c ∷ []) s h, append_assoc cur (c ∷ []) s)

-- Splitting what was joined gives the parts back, if none of them holds the separator.
pub split-join :
    (sep : ℕ) (s : Text) (ts : List Text)
    → IsFree sep s
    → All (IsFree sep) ts
    → split sep (join sep s ts) ≡ s ∷ ts
split-join sep s [] h hs = split_from-free sep [] s h
split-join sep s (t ∷ ts) h (p, hs) =
    split_from-append sep [] s (join sep t ts) h ∙ ap (λ r. s ∷ r) (split-join sep t ts p hs)
