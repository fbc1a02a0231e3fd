-- ===== src/RefPtr/Counts.antt =====
-- How many live pointers use a counter, and how many point to an object (include/dbus-c++/util.h).
use dbus_cplusplus.Common.{
  ℕ, suc, ◌≡◌, ◌≢◌, refl, sym, ap, ◌∙◌, List, [], ◌∷◌, ◌++◌, ◌==◌, if◌then◌else◌, arith,
}
use dbus_cplusplus.RefPtr.{RefPtr}

unfoldable pub uses : ℕ → List RefPtr → ℕ
uses c [] = 0
uses c (p ∷ ps) = let rest = uses c ps in if p.cnt == c then suc rest else rest

unfoldable pub owners : ℕ → List RefPtr → ℕ
owners o [] = 0
owners o (p ∷ ps) = let rest = owners o ps in if p.ptr == o then suc rest else rest

-- The object of each pointer is the one that its counter stands for.
unfoldable pub Given : (ℕ → ℕ) → List RefPtr → Type 0
Given obj [] = Unit {0}
Given obj (p ∷ ps) = (p.ptr ≡ obj p.cnt) × Given obj ps

pub uses-middle :
    (c : ℕ) (xs : List RefPtr) (p : RefPtr) (ys : List RefPtr)
    → uses c (xs ++ p ∷ ys) ≡ uses c (p ∷ (xs ++ ys))
unfolding uses
uses-middle c [] p ys = refl
uses-middle c (x ∷ xs) p ys = ground (arith, uses-middle c xs p ys)

pub owners-middle :
    (o : ℕ) (xs : List RefPtr) (p : RefPtr) (ys : List RefPtr)
    → owners o (xs ++ p ∷ ys) ≡ owners o (p ∷ (xs ++ ys))
unfolding owners
owners-middle o [] p ys = refl
owners-middle o (x ∷ xs) p ys = ground (arith, owners-middle o xs p ys)

pub Given-middle :
    (obj : ℕ → ℕ) (xs : List RefPtr) (p : RefPtr) (ys : List RefPtr)
    → Given obj (xs ++ p ∷ ys)
    → (p.ptr ≡ obj p.cnt) × Given obj (xs ++ ys)
unfolding Given
Given-middle obj [] p ys h = h
Given-middle obj (x ∷ xs) p ys (h, hs) = let (a, b) = Given-middle obj xs p ys hs in (a, (h, b))

pub Given-insert :
    (obj : ℕ → ℕ) (xs : List RefPtr) (p : RefPtr) (ys : List RefPtr)
    → p.ptr ≡ obj p.cnt
    → Given obj (xs ++ ys)
    → Given obj (xs ++ p ∷ ys)
unfolding Given
Given-insert obj [] p ys e h = (e, h)
Given-insert obj (x ∷ xs) p ys e (h, hs) = (h, Given-insert obj xs p ys e hs)

-- Where each counter has an object of its own, as many pointers point to the object of a pointer
-- as use its counter.
pub owners-uses :
    (obj : ℕ → ℕ) (p : RefPtr) (xs : List RefPtr)
    → ((a b : ℕ) → obj a ≢ 0 → obj a ≡ obj b → a ≡ b)
    → p.ptr ≢ 0
    → p.ptr ≡ obj p.cnt
    → Given obj xs
    → owners p.ptr xs ≡ uses p.cnt xs
unfolding owners uses Given
owners-uses obj p [] inj h e g = refl
owners-uses obj p (x ∷ xs) inj h e (g, gs) =
    let rest = owners-uses obj p xs inj h e gs in
    let same : (x.cnt ≡ p.cnt) → x.ptr ≡ p.ptr = λ q. g ∙ (ap obj q ∙ sym e) in
    let other : (x.ptr ≡ p.ptr) → x.cnt ≡ p.cnt =
      λ q. sym (inj p.cnt x.cnt (λ z. h (e ∙ z)) (sym e ∙ (sym q ∙ g))) in
    ground (arith, rest, same, other)
