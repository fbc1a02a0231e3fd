-- ===== src/Generator/Join.antt =====
-- Texts with commas between them, as the loops of tools/generate_adaptor.cpp place them.
use dbus_cplusplus.Common.{
  ℕ, suc, ◌+◌, ◌≡◌, refl, ap, ◌∙◌, Bool, true, false, not, List, [], ◌∷◌, ◌++◌, append_assoc,
  append-nil, length, ◌==◌, ==_iff, if◌then◌else◌, codes, arith,
}
use dbus_cplusplus.Xml.{Bytes}

-- The texts with a comma and a space between each two.
unfoldable pub join : List Bytes → Bytes
join [] = []
join (t ∷ []) = t
join (t ∷ u ∷ ts) = t ++ (codes ", " ++ join (u ∷ ts))

-- The texts, each with a comma and a space after it where the test says so.
unfoldable pub separated : (ℕ → Bool) → ℕ → List Bytes → Bytes
separated comma i [] = []
separated comma i (t ∷ ts) =
    t ++ ((if comma i then codes ", " else []) ++ separated comma (suc i) ts)

-- A comma after each but the last.
pub separated-join :
    (size i : ℕ) (comma : ℕ → Bool) (ts : List Bytes)
    → ((k : ℕ) → comma k ≡ not (suc k == size))
    → size ≡ i + length ts
    → separated comma i ts ≡ join ts
unfolding separated join
separated-join size i comma [] h e = refl
separated-join size i comma (t ∷ []) h e =
    let last : comma i ≡ false = h i ∙ ground (arith, e, ==_iff (suc i) size) in
    rw last (append-nil t)
separated-join size i comma (t ∷ u ∷ ts) h e =
    let between : comma i ≡ true = h i ∙ ground (arith, e, ==_iff (suc i) size) in
    let rest = separated-join size (suc i) comma (u ∷ ts) h (e ∙ omega arith) in
    rw between (ap (λ x. t ++ (codes ", " ++ x)) rest)

-- A comma after each, where others follow.
pub separated-more :
    (i : ℕ) (comma : ℕ → Bool) (ts us : List Bytes) (u : Bytes)
    → ((k : ℕ) → comma k ≡ true)
    → separated comma i ts ++ join (u ∷ us) ≡ join (ts ++ u ∷ us)
unfolding separated join
separated-more i comma [] us u h = refl
separated-more i comma (t ∷ []) us u h = rw (h i) (simp (append_assoc) refl)
separated-more i comma (t ∷ s ∷ ts) us u h =
    let rest = separated-more (suc i) comma (s ∷ ts) us u h in
    rw (h i) (
      append_assoc t (codes ", " ++ separated comma (suc i) (s ∷ ts)) (join (u ∷ us))
      ∙ ap (λ x. t ++ (codes ", " ++ x)) rest)

pub comma_after : (k size : ℕ) → not (k + 1 == size) ≡ not (suc k == size)
comma_after k size = ap (λ m. not (m == size)) (omega arith)
