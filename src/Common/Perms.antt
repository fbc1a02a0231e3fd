-- ===== src/Common/Perms.antt =====
-- Lists up to order: taking one entry out of a part of a list, and dictionaries keyed by addresses
-- whose keys are distinct.
use mathlib.Core.Path.{◌≡◌, refl, sym, ap, subst}
use mathlib.Core.Logic.{inl, inr, ◌≢◌}
use mathlib.Core.Logic.Or
use mathlib.Core.Option.{none, some}
use mathlib.Core.List.{
  List, [], ◌∷◌, ◌++◌, map, Mem, Nodup, Perm, perm_middle, mem-cons, mem-cons_self, mem-map_of_mem,
  not-mem-nil, Nodup-cons,
}
use mathlib.Core.List.Perm
use Prim.Native.Nat.{ℕ}
use native.Mathlib.Omega.{arith}
use dbus_cplusplus.Common.Tests.{◌==◌, ==_iff, Bool-cases}
use dbus_cplusplus.Common.Dict.{find, insert, erase}

module _ {ℓ} {A : Type ℓ} where
  pub perm-append_right :
      {x : A} {ys ys' : List A} (xs : List A)
      → Perm ys (x ∷ ys')
      → Perm (xs ++ ys) (x ∷ (xs ++ ys'))
  perm-append_right {ys' = ys'} xs h = Perm.trans (Perm.append_left xs h) (perm_middle xs ys')

  -- One entry at the end of each of two lists.
  pub perm_add :
      {xs ys xs' ys' : List A} {x : A}
      → Perm xs' (x ∷ xs)
      → Perm ys' (x ∷ ys)
      → Perm xs ys
      → Perm xs' ys'
  perm_add {x = x} p q h = Perm.trans p (Perm.trans (Perm.cons x h) (Perm.symm q))

  -- The same entry taken out of each of two lists.
  pub perm_remove :
      {xs ys xs' ys' : List A} {x : A}
      → Perm xs (x ∷ xs')
      → Perm ys (x ∷ ys')
      → Perm xs ys
      → Perm xs' ys'
  perm_remove p q h = Perm.cons_inv (Perm.trans (Perm.symm p) (Perm.trans h q))

  -- An entry that moves from one place to another.
  pub perm_move : {xs ys zs : List A} {x : A} → Perm xs (x ∷ zs) → Perm ys (x ∷ zs) → Perm ys xs
  perm_move p q = Perm.trans q (Perm.symm p)

abbrev pub keys {ℓ} : {V : Type ℓ} → List (ℕ × V) → List ℕ
keys = map (λ e. e.0)

module _ {ℓ} {V : Type ℓ} where
  -- Under a key that occurs once there is one value.
  pub same_value :
      {k : ℕ} {v w : V} {xs ys : List (ℕ × V)}
      → IsSet V
      → Nodup (k ∷ keys ys)
      → Perm ((k, v) ∷ xs) ((k, w) ∷ ys)
      → v ≡ w
  same_value {k} {v} {w} {xs} {ys} is_set distinct p =
      Or.elim (is_set v w) (mem-cons.0 ((Perm.mem_iff p).0 mem-cons_self)) (λ e. ap (λ t. t.1) e)
        (λ m. absurd ((Nodup-cons.0 distinct).0 (mem-map_of_mem (λ e. e.0) m)))

  pub find-perm :
      (k : ℕ) (v : V) (m : List (ℕ × V)) → find k m ≡ some v → Perm m ((k, v) ∷ erase k m)
  unfolding find erase
  find-perm k v [] e = cc
  find-perm k v ((j, w) ∷ m) e = elim (Bool-cases (j == k)) [
    | inl hit ↦
        let same : j ≡ k = (==_iff j k).0 hit in
        let value : w ≡ v = ground (arith, hit) in rw (hit, same, value) (Perm.refl _)
    | inr miss ↦ rw miss (
        Perm.trans (Perm.cons (j, w) (find-perm k v m (ground (arith, miss))))
          (Perm.swap (k, v) (j, w) (erase k m)))
  ]

  pub find_missing : (k : ℕ) (m : List (ℕ × V)) → find k m ≡ none → ¬ Mem k (keys m)
  unfolding find
  find_missing k [] e h = not-mem-nil h
  find_missing k ((j, w) ∷ m) e h = elim (Bool-cases (j == k)) [
    | inl hit ↦ absurd (ground (arith, hit))
    | inr miss ↦
        Or.elim (λ x y. absurd x) (mem-cons.0 h) (λ s. ground (arith, miss))
          (find_missing k m (ground (arith, miss)))
  ]

  pub find_absent : (k : ℕ) (m : List (ℕ × V)) → ¬ Mem k (keys m) → find k m ≡ none
  unfolding find
  find_absent k [] h = refl
  find_absent k ((j, w) ∷ m) h = elim (Bool-cases (j == k)) [
    | inl hit ↦ absurd (h (mem-cons.1 (Or.inl (sym ((==_iff j k).0 hit)))))
    | inr miss ↦ rw miss (find_absent k m (λ x. h (mem-cons.1 (Or.inr x))))
  ]

  -- A new key goes to the end.
  pub insert_absent :
      (k : ℕ) (v : V) (m : List (ℕ × V)) → ¬ Mem k (keys m) → insert k v m ≡ m ++ (k, v) ∷ []
  unfolding insert
  insert_absent k v [] h = refl
  insert_absent k v ((j, w) ∷ m) h = elim (Bool-cases (j == k)) [
    | inl hit ↦ absurd (h (mem-cons.1 (Or.inl (sym ((==_iff j k).0 hit)))))
    | inr miss ↦ rw miss (ap (◌∷◌ (j, w)) (insert_absent k v m (λ x. h (mem-cons.1 (Or.inr x)))))
  ]

-- Lists of distinct addresses, none of them null.
module _ {t : ℕ} {xs ys : List ℕ} where
  pub distinct_add : Perm ys (t ∷ xs) → t ≢ 0 → ¬ Mem t xs → Nodup (0 ∷ xs) → Nodup (0 ∷ ys)
  distinct_add p nonzero absent h =
      Perm.nodup (Perm.trans (Perm.swap 0 t xs) (Perm.cons 0 (Perm.symm p)))
        (Nodup-cons.1 (λ m. Or.elim (λ x y. absurd x) (mem-cons.0 m) (λ e. nonzero e) absent, h))

  pub distinct_remove : Perm xs (t ∷ ys) → Nodup (0 ∷ xs) → Nodup (0 ∷ ys)
  distinct_remove p h =
      (Nodup-cons.0 (Perm.nodup (Perm.trans (Perm.cons 0 p) (Perm.swap t 0 ys)) h)).1

pub distinct_perm : {xs ys : List ℕ} → Perm xs ys → Nodup (0 ∷ xs) → Nodup (0 ∷ ys)
distinct_perm p h = Perm.nodup (Perm.cons 0 p) h

pub distinct_absent : {t : ℕ} {xs ys : List ℕ} → Perm xs (t ∷ ys) → Nodup (0 ∷ xs) → ¬ Mem t ys
distinct_absent {t} {xs} {ys} p h =
    (Nodup-cons.0 ((Nodup-cons.0 (Perm.nodup (Perm.cons 0 p) h)).1)).0

module _ {ℓ} {V : Type ℓ} where
  pub find-insert_self : (k : ℕ) (v : V) (m : List (ℕ × V)) → find k (insert k v m) ≡ some v
  unfolding find insert
  find-insert_self k v [] = ground arith
  find-insert_self k v ((j, w) ∷ m) = ground (arith, find-insert_self k v m)

  pub find-erase-insert :
      (k j : ℕ) (v : V) (m : List (ℕ × V)) → k ≢ j → find j (erase k (insert k v m)) ≡ find j m
  unfolding find insert erase
  find-erase-insert k j v [] h = ground arith
  find-erase-insert k j v ((i, w) ∷ m) h = elim (Bool-cases (i == k)) [
    | inl hit ↦ ground (arith, hit)
    | inr miss ↦ ground (arith, miss, find-erase-insert k j v m h)
  ]

  -- Where no key occurs twice, an erased key is gone.
  pub find-erase-insert_self :
      (k : ℕ) (v : V) (m : List (ℕ × V)) → Nodup (keys m) → find k (erase k (insert k v m)) ≡ none
  unfolding find insert erase
  find-erase-insert_self k v [] h = ground arith
  find-erase-insert_self k v ((i, w) ∷ m) h = elim (Bool-cases (i == k)) [
    | inl hit ↦
        let same : i ≡ k = (==_iff i k).0 hit in
        let alone : find k m ≡ none =
          find_absent k m (subst (λ x. ¬ Mem x (keys m)) same (Nodup-cons.0 h).0) in
        ground (arith, hit, alone)
    | inr miss ↦ ground (arith, miss, find-erase-insert_self k v m (Nodup-cons.0 h).1)
  ]
