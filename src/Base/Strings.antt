-- ===== src/Base/Strings.antt =====
-- Text as its list of character codes, which proofs can take apart.
use Prim.Native.Nat.{ℕ, zero, suc, ◌≤◌}
use Prim.Native.Char.{code}
use Prim.Native.String.{String}
use mathlib.Core.Path.{◌≡◌, refl, ap, ◌∙◌}
use mathlib.Core.Bool.{Bool, true, false, ◌&&◌, ◌||◌}
use mathlib.Core.List.{List, [], ◌∷◌, ◌++◌, reverse, reverse-append, reverse-cons, reverse-reverse}
use native.Mathlib.Omega.{arith}
use opiumo.Base.Tests.{leb, ◌==◌, if◌then◌else◌, if_cases}
use opiumo.Base.Lists.{take}

abbrev pub Text : Type 0
Text = List ℕ

abbrev pub codes : String → Text
codes String.[] = []
codes (String.◌∷◌ c s) = code c ∷ codes s

-- `===` on strings.
unfoldable pub text_eq : Text → Text → Bool
text_eq [] [] = true
text_eq [] (y ∷ ys) = false
text_eq (x ∷ xs) [] = false
text_eq (x ∷ xs) (y ∷ ys) = x == y && text_eq xs ys

pub text_eq→eq : (s t : Text) → text_eq s t ≡ true → s ≡ t
unfolding text_eq
text_eq→eq [] [] h = refl
text_eq→eq [] (y ∷ ys) h = cc
text_eq→eq (x ∷ xs) [] h = cc
text_eq→eq (x ∷ xs) (y ∷ ys) h = ground (arith, text_eq→eq xs ys)

pub text_eq_refl : (s : Text) → text_eq s s ≡ true
unfolding text_eq
text_eq_refl [] = refl
text_eq_refl (x ∷ xs) = ground (arith, text_eq_refl xs)

pub ne_of_text_eq : (s t : Text) → text_eq s t ≡ false → ¬ (s ≡ t)
ne_of_text_eq s t h e = cc (text_eq_refl s, ap (text_eq s) e)

-- A prefix of a longer prefix is the shorter prefix.
pub take-take : (m n : ℕ) (s : Text) → m ≤ n → take m (take n s) ≡ take m s
take-take zero n s h = refl
take-take (suc m) zero s h = elim h [ ]
take-take (suc m) (suc n) [] h = refl
take-take (suc m) (suc n) (x ∷ xs) h = ap (◌∷◌ x) (take-take m n xs (omega arith))

-- White space and line ends, as `String.prototype.trim` reads them.
abbrev pub is_space : ℕ → Bool
is_space c =
    (leb 9 c && leb c 13)
    || c == 32
    || c == 160
    || c == 5760
    || (leb 8192 c && leb c 8202)
    || c == 8232
    || c == 8233
    || c == 8239
    || c == 8287
    || c == 12288
    || c == 65279

trim_start : Text → Text
trim_start [] = []
trim_start (c ∷ cs) = if is_space c then trim_start cs else c ∷ cs

unfoldable pub trim : Text → Text
unfolding trim_start
trim s = reverse (trim_start (reverse (trim_start s)))

trim_start_kept : (c : ℕ) (cs : Text) → is_space c ≡ false → trim_start (c ∷ cs) ≡ c ∷ cs
unfolding trim_start
trim_start_kept c cs h = if_cases (λ s. s ≡ c ∷ cs) (is_space c) (λ e. cc) (λ e. refl)

reverse_ends : (c d : ℕ) (mid : Text) → reverse (c ∷ (mid ++ (d ∷ []))) ≡ d ∷ reverse (c ∷ mid)
reverse_ends c d mid = reverse-append (c ∷ mid) (d ∷ [])

-- Text that neither begins nor ends with white space is kept.
pub trim_kept :
    (c d : ℕ) (mid : Text)
    → is_space c ≡ false
    → is_space d ≡ false
    → trim (c ∷ (mid ++ (d ∷ []))) ≡ c ∷ (mid ++ (d ∷ []))
unfolding trim
trim_kept c d mid h k =
    ap (λ s. reverse (trim_start (reverse s))) (trim_start_kept c (mid ++ (d ∷ [])) h)
    ∙ ap (λ s. reverse (trim_start s)) (reverse_ends c d mid)
    ∙ ap reverse (trim_start_kept d (reverse (c ∷ mid)) k)
    ∙ reverse-cons d (reverse (c ∷ mid))
    ∙ ap (λ s. s ++ (d ∷ [])) (reverse-reverse (c ∷ mid))
