-- ===== src/Text/Split.antt =====
-- Splitting, trimming and cutting of the texts that package strings is used on.
use bincrypt.Prelude.{
  ℕ, ◌≡◌, refl, ◌∙◌, ap, Bool, true, false, not, ◌==◌, List, [], ◌∷◌, ◌++◌, some, Bytes, arith, all,
  All,
}
use bincrypt.Text.{split, join, cut, is_space, trim_right}

abbrev pub lacks : ℕ → Bytes → Bool
lacks sep s = all (λ c. not (c == sep)) s

pub lacks-append :
    (sep : ℕ) (s t : Bytes) → lacks sep s ≡ true → lacks sep t ≡ true → lacks sep (s ++ t) ≡ true
lacks-append sep [] t h k = k
lacks-append sep (c ∷ s) t h k = ground (arith, lacks-append sep s t)

-- Splitting off the first of several parts.
pub split-first :
    (sep : ℕ) (part rest : Bytes)
    → lacks sep part ≡ true
    → split sep (part ++ sep ∷ rest) ≡ part ∷ split sep rest
unfolding split
split-first sep [] rest h = ground arith
split-first sep (c ∷ part) rest h = ground (arith, split-first sep part rest)

pub split-whole : (sep : ℕ) (part : Bytes) → lacks sep part ≡ true → split sep part ≡ part ∷ []
unfolding split
split-whole sep [] h = refl
split-whole sep (c ∷ part) h = ground (arith, split-whole sep part)

pub split-join :
    (sep : ℕ) (part : Bytes) (parts : List Bytes)
    → All (λ (s : Bytes). lacks sep s ≡ true) (part ∷ parts)
    → split sep (join sep (part ∷ parts)) ≡ part ∷ parts
unfolding join
split-join sep part [] (h, _) = split-whole sep part h
split-join sep part (next ∷ parts) (h, k) =
    split-first sep part (join sep (next ∷ parts)) h
    ∙ ap (λ (r : List Bytes). part ∷ r) (split-join sep next parts k)

pub cut-first :
    (sep : ℕ) (part rest : Bytes)
    → lacks sep part ≡ true
    → cut sep (part ++ sep ∷ rest) ≡ (part, some rest)
unfolding cut
cut-first sep [] rest h = ground arith
cut-first sep (c ∷ part) rest h = ground (arith, cut-first sep part rest)

-- A text that ends with no space keeps its end.
pub trim_right-end :
    (s : Bytes) (c : ℕ) → is_space c ≡ false → trim_right (s ++ c ∷ []) ≡ s ++ c ∷ []
unfolding trim_right
trim_right-end [] c h = ground arith
trim_right-end (d ∷ []) c h = ground (arith, trim_right-end [] c h)
trim_right-end (d ∷ e ∷ s) c h = ground (arith, trim_right-end (e ∷ s) c h)
