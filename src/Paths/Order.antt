-- ===== src/Paths/Order.antt =====
-- The order of texts, and what sorting and dropping equal neighbours do to a list.
use mathlib.Core.List.{Mem, mem-cons, mem-cons_of_mem, Mem-prop}
use mathlib.Core.Logic.Or
use dbus_cplusplus.Common.{
  ==_iff, ◌≡◌, refl, sym, subst, true, false, List, [], ◌∷◌, arith, Bool-cases, inl, inr, ◌↔◌,
}
use dbus_cplusplus.Paths.{Bytes, same, at_most, insert, sort, unique_from, unique}

pub same_eq : (a b : Bytes) → same a b ≡ true → a ≡ b
unfolding same
same_eq [] [] h = refl
same_eq [] (y ∷ ys) h = absurd (cc)
same_eq (x ∷ xs) [] h = absurd (cc)
same_eq (x ∷ xs) (y ∷ ys) h = ground (arith, same_eq xs ys)

pub same_refl : (a : Bytes) → same a a ≡ true
unfolding same
same_refl [] = refl
same_refl (x ∷ xs) = rw ((==_iff x x).1 refl) (same_refl xs)

pub same_iff : (a b : Bytes) → (same a b ≡ true) ↔ (a ≡ b)
same_iff a b = (same_eq a b, λ e. subst (λ c. same a c ≡ true) e (same_refl a))

at_most_total : (a b : Bytes) → at_most a b ≡ false → at_most b a ≡ true
unfolding at_most
at_most_total [] b h = absurd (cc)
at_most_total (x ∷ xs) [] h = refl
at_most_total (x ∷ xs) (y ∷ ys) h = ground (arith, at_most_total xs ys)

abbrev pub AtMostHead : Bytes → List Bytes → Type 0
AtMostHead x [] = Unit {0}
AtMostHead x (y ∷ ys) = at_most x y ≡ true

-- Each element is at most the next.
abbrev pub Sorted : List Bytes → Type 0
Sorted [] = Unit {0}
Sorted (x ∷ xs) = AtMostHead x xs × Sorted xs

abbrev pub LessHead : Bytes → List Bytes → Type 0
LessHead x [] = Unit {0}
LessHead x (y ∷ ys) = (at_most x y ≡ true) × (same x y ≡ false)

-- Each element is less than the next.
abbrev pub Ascending : List Bytes → Type 0
Ascending [] = Unit {0}
Ascending (x ∷ xs) = LessHead x xs × Ascending xs

insert-AtMostHead :
    (x y : Bytes) (ys : List Bytes)
    → at_most y x ≡ true
    → AtMostHead y ys
    → AtMostHead y (insert x ys)
unfolding insert
insert-AtMostHead x y [] h k = h
insert-AtMostHead x y (z ∷ zs) h k = elim (Bool-cases (at_most x z)) [
  | inl e ↦ rw e h
  | inr e ↦ rw e k
]

insert-Sorted : (x : Bytes) (ys : List Bytes) → Sorted ys → Sorted (insert x ys)
unfolding insert
insert-Sorted x [] h = (tt, tt)
insert-Sorted x (y ∷ ys) (first, rest) = elim (Bool-cases (at_most x y)) [
  | inl e ↦ rw e (e, (first, rest))
  | inr e ↦ rw e (insert-AtMostHead x y ys (at_most_total x y e) first, insert-Sorted x ys rest)
]

sort-Sorted : (xs : List Bytes) → Sorted (sort xs)
unfolding sort
sort-Sorted [] = tt
sort-Sorted (x ∷ xs) = insert-Sorted x (sort xs) (sort-Sorted xs)

-- The head of what unique_from gives is the element that it keeps.
unique_from-LessHead :
    (w x : Bytes) (ys : List Bytes)
    → at_most w x ≡ true
    → same w x ≡ false
    → LessHead w (unique_from x ys)
unfolding unique_from
unique_from-LessHead w x [] h k = (h, k)
unique_from-LessHead w x (y ∷ ys) h k = elim (Bool-cases (same x y)) [
  | inl e ↦ rw e (unique_from-LessHead w x ys h k)
  | inr e ↦ rw e (h, k)
]

unique_from-Ascending :
    (x : Bytes) (ys : List Bytes) → Sorted (x ∷ ys) → Ascending (unique_from x ys)
unfolding unique_from
unique_from-Ascending x [] h = (tt, tt)
unique_from-Ascending x (y ∷ ys) (first, rest) = elim (Bool-cases (same x y)) [
  | inl e ↦
      rw e (unique_from-Ascending x ys (subst (λ z. Sorted (z ∷ ys)) (sym (same_eq x y e)) rest))
  | inr e ↦ rw e (unique_from-LessHead x y ys first e, unique_from-Ascending y ys rest)
]

pub unique-Ascending : (xs : List Bytes) → Ascending (unique (sort xs))
unfolding unique
unique-Ascending xs = of_sorted (sort xs) (sort-Sorted xs)
  where
    of_sorted : (ys : List Bytes) → Sorted ys → Ascending (unique ys)
    of_sorted [] h = tt
    of_sorted (y ∷ ys) h = unique_from-Ascending y ys h

-- The elements stay.
mem-insert : (z x : Bytes) (ys : List Bytes) → Mem z (x ∷ ys) ↔ Mem z (insert x ys)
unfolding insert
mem-insert z x [] = (λ m. m, λ m. m)
mem-insert z x (y ∷ ys) = elim (Bool-cases (at_most x y)) [
  | inl e ↦ rw e (λ m. m, λ m. m)
  | inr e ↦ rw e (
    λ m.
        Or.elim Mem-prop (mem-cons.0 m)
          (λ k. mem-cons_of_mem y ((mem-insert z x ys).0 (mem-cons.1 (Or.inl k))))
          (λ k.
            mem-cons.1
              (Or.imp (λ t. t) (λ t. (mem-insert z x ys).0 (mem-cons_of_mem x t)) (mem-cons.0 k))),
    λ m.
        Or.elim Mem-prop (mem-cons.0 m) (λ k. mem-cons_of_mem x (mem-cons.1 (Or.inl k)))
          (λ k.
            mem-cons.1
              (Or.imp (λ t. t) (λ t. mem-cons_of_mem y t) (mem-cons.0 ((mem-insert z x ys).1 k)))),
  )
]

mem-sort : (z : Bytes) (xs : List Bytes) → Mem z xs ↔ Mem z (sort xs)
unfolding sort
mem-sort z [] = (λ m. m, λ m. m)
mem-sort z (x ∷ xs) = (
  λ m. (mem-insert z x (sort xs)).0 (mem-cons.1 (Or.imp (λ t. t) (mem-sort z xs).0 (mem-cons.0 m))),
  λ m. mem-cons.1 (Or.imp (λ t. t) (mem-sort z xs).1 (mem-cons.0 ((mem-insert z x (sort xs)).1 m))),
)

mem-unique_from : (z x : Bytes) (ys : List Bytes) → Mem z (x ∷ ys) ↔ Mem z (unique_from x ys)
unfolding unique_from
mem-unique_from z x [] = (λ m. m, λ m. m)
mem-unique_from z x (y ∷ ys) = elim (Bool-cases (same x y)) [
  | inl e ↦ rw e (
    λ m. (mem-unique_from z x ys).0 (
        Or.elim Mem-prop (mem-cons.0 m) (λ k. mem-cons.1 (Or.inl k))
          (λ k. subst (λ w. Mem z (w ∷ ys)) (sym (same_eq x y e)) k)),
    λ m.
        mem-cons.1
          (Or.imp (λ t. t) (λ t. mem-cons_of_mem y t) (mem-cons.0 ((mem-unique_from z x ys).1 m))),
  )
  | inr e ↦ rw e (
    λ m. mem-cons.1 (Or.imp (λ t. t) (mem-unique_from z y ys).0 (mem-cons.0 m)),
    λ m. mem-cons.1 (Or.imp (λ t. t) (mem-unique_from z y ys).1 (mem-cons.0 m)),
  )
]

pub mem-unique : (z : Bytes) (xs : List Bytes) → Mem z xs ↔ Mem z (unique (sort xs))
unfolding unique
mem-unique z xs = (
  λ m. (of_list (sort xs)).0 ((mem-sort z xs).0 m),
  λ m. (mem-sort z xs).1 ((of_list (sort xs)).1 m),
)
  where
    of_list : (ys : List Bytes) → Mem z ys ↔ Mem z (unique ys)
    of_list [] = (λ m. m, λ m. m)
    of_list (y ∷ ys) = mem-unique_from z y ys
