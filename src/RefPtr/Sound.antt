-- ===== src/RefPtr/Sound.antt =====
-- What is true of the RefPtr of include/dbus-c++/util.h while a program runs.
use dbus_cplusplus.Common.{ℕ, ◌+◌, ◌≤◌, ◌≡◌, ◌≢◌, refl, List, ◌∷◌, ◌++◌, ◌==◌, if◌then◌else◌, arith}
use dbus_cplusplus.RefPtr.{RefPtr}
use dbus_cplusplus.RefPtr.Program.{Program, times, start}
use dbus_cplusplus.RefPtr.Counts.{uses, owners, Given, owners-middle}
use dbus_cplusplus.RefPtr.Invariant.{shown, Counted}
use dbus_cplusplus.RefPtr.Release.{release, Apart}

-- 1 for an object that some pointer points to
unfoldable pub owned : ℕ → List RefPtr → ℕ
unfolding owners
owned o ps = if owners o ps == 0 then 0 else 1

abbrev pub Deletions : List ℕ → List RefPtr → List ℕ → Type 0
Deletions deleted ps made = (o : ℕ) → o ≢ 0 → times o deleted + owned o ps ≡ times o made

pub record IsSound (s : Program) : Type 0 where
  pub obj : ℕ → ℕ
  pub apart : Apart obj
  pub given : Given obj s.pointers
  pub counted : Counted s.store (λ c. uses c s.pointers)
  pub unused : (c : ℕ) → s.store.next ≤ c → uses c s.pointers ≡ 0
  pub known : (c : ℕ) → obj c ≢ 0 → times (obj c) s.made ≢ 0
  pub once : (o : ℕ) → o ≢ 0 → times o s.made ≤ 1
  pub deletions : Deletions s.store.deleted s.pointers s.made

pub start-IsSound : IsSound start
unfolding Given uses times owned owners shown
start-IsSound = record {
  obj = λ c. 0;
  apart = λ a b h e. absurd (h refl);
  given = tt;
  counted = λ c. refl;
  unused = λ c h. refl;
  known = λ c h e. h refl;
  once = λ o h. omega arith;
  deletions = λ o h. refl;
}

-- A pointer that goes.
pub release-Deletions :
    (p : RefPtr) (xs ys : List RefPtr) (deleted made : List ℕ)
    → Deletions deleted (xs ++ p ∷ ys) made
    → Deletions (release p.ptr (xs ++ ys) deleted) (xs ++ ys) made
unfolding owned owners release times
release-Deletions p xs ys deleted made h o object =
    let before = h o object in
    let middle = owners-middle o xs p ys in ground (arith, before, middle)

-- A pointer that comes, to an object that has an owner.
pub owned_again :
    (q : RefPtr) (xs ys us vs : List RefPtr) (o : ℕ)
    → xs ++ ys ≡ us ++ q ∷ vs
    → owned o (xs ++ q ∷ ys) ≡ owned o (xs ++ ys)
unfolding owned owners
owned_again q xs ys us vs o e =
    let middle = owners-middle o xs q ys in
    let there = owners-middle o us q vs in ground (arith, middle, there, e)
