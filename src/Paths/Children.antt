-- ===== src/Paths/Children.antt =====
-- ObjectAdaptor::child_nodes_from_prefix (src/object.cpp): exactly the parts below a prefix.
use mathlib.Core.List.{Mem, mem-cons, mem-cons_of_mem, not-mem-nil, Mem-prop}
use mathlib.Core.Logic.{∥∥₁_elim}
use mathlib.Core.Logic.Or
use dbus_cplusplus.Common.{
  ◌≡◌, refl, sym, subst, ap, ◌∙◌, true, false, List, [], ◌∷◌, ◌++◌, ◌==◌, ==_iff, arith, Bool-cases,
  inl, inr, ◌↔◌, none, some, Option-cases,
}
use dbus_cplusplus.Paths.{Bytes, without_prefix, first_part, parts_below, child_nodes_from_prefix}
use dbus_cplusplus.Paths.Order.{Ascending, unique-Ascending, mem-unique}

abbrev pub NoSlash : Bytes → Type 0
NoSlash [] = Unit {0}
NoSlash (c ∷ cs) = ((c == b'/') ≡ false) × NoSlash cs

-- Nothing more, or a slash and what follows it.
abbrev pub EndsPart : Bytes → Type 0
EndsPart [] = Unit {0}
EndsPart (c ∷ cs) = (c == b'/') ≡ true

without_prefix-append : (prefix p : Bytes) → without_prefix prefix (prefix ++ p) ≡ some p
unfolding without_prefix
without_prefix-append [] p = refl
without_prefix-append (c ∷ prefix) p = rw ((==_iff c c).1 refl) (without_prefix-append prefix p)

append-without_prefix :
    (prefix path p : Bytes) → without_prefix prefix path ≡ some p → path ≡ prefix ++ p
unfolding without_prefix
append-without_prefix [] path p e = cc
append-without_prefix (c ∷ prefix) [] p e = absurd (cc)
append-without_prefix (c ∷ prefix) (d ∷ path) p e =
    ground (arith, append-without_prefix prefix path p)

first_part-append : (n tail : Bytes) → NoSlash n → EndsPart tail → first_part (n ++ tail) ≡ n
unfolding first_part
first_part-append [] [] h k = refl
first_part-append [] (c ∷ tail) h k = rw k refl
first_part-append (c ∷ n) tail (plain, h) k = rw plain (ap (◌∷◌ c) (first_part-append n tail h k))

-- A text is its first part and what ends it.
first_part_split :
    (p : Bytes)
    → NoSlash (first_part p) × ((tail : Bytes) × EndsPart tail × (p ≡ first_part p ++ tail))
unfolding first_part
first_part_split [] = (tt, ([], tt, refl))
first_part_split (c ∷ p) = elim (Bool-cases (c == b'/')) [
  | inl k ↦ rw k (tt, (c ∷ p, k, refl))
  | inr k ↦
      let (plain, (tail, ends, split)) = first_part_split p in
      rw k ((k, plain), (tail, ends, ap (◌∷◌ c) split))
]

-- The name is a whole part, directly below the prefix, of a path that is registered.
pub record Child (prefix : Bytes) (paths : List Bytes) (name : Bytes) : Type 0 where
  pub tail : Bytes
  pub plain : NoSlash name
  pub ends : EndsPart tail
  pub registered : Mem (prefix ++ (name ++ tail)) paths

module _ (prefix path : Bytes) (paths : List Bytes) where
  parts_below_skip :
      without_prefix prefix path ≡ none
      → parts_below prefix (path ∷ paths) ≡ parts_below prefix paths
  unfolding parts_below
  parts_below_skip e = rw (parts_below, e) refl

  parts_below_take :
      (p : Bytes)
      → without_prefix prefix path ≡ some p
      → parts_below prefix (path ∷ paths) ≡ first_part p ∷ parts_below prefix paths
  unfolding parts_below
  parts_below_take p e = rw (parts_below, e) refl

  parts_below_more :
      (name : Bytes)
      → Mem name (parts_below prefix paths)
      → Mem name (parts_below prefix (path ∷ paths))
  parts_below_more name m = elim (Option-cases (without_prefix prefix path)) [
    | inl e ↦ subst (λ l. Mem name l) (sym (parts_below_skip e)) m
    | inr (p, e) ↦
        subst (λ l. Mem name l) (sym (parts_below_take p e)) (mem-cons_of_mem (first_part p) m)
  ]

  Child-more : (name : Bytes) → Child prefix paths name → Child prefix (path ∷ paths) name
  Child-more name h = record {
    tail = h.tail;
    plain = h.plain;
    ends = h.ends;
    registered = mem-cons_of_mem path h.registered;
  }

  Child-here :
      (name p : Bytes)
      → without_prefix prefix path ≡ some p
      → name ≡ first_part p
      → Child prefix (path ∷ paths) name
  Child-here name p e is =
      let (plain, (tail, ends, split)) = first_part_split p in
      record {
        tail = tail;
        plain = subst NoSlash (sym is) plain;
        ends = ends;
        registered = mem-cons.1 (
            Or.inl (
              ap (λ n. prefix ++ (n ++ tail)) is
              ∙ (ap (λ x. prefix ++ x) (sym split) ∙ sym (append-without_prefix prefix path p e))));
      }

parts_below-Child :
    (prefix : Bytes) (paths : List Bytes) (name : Bytes)
    → Mem name (parts_below prefix paths)
    → ∥ Child prefix paths name ∥₁
unfolding parts_below
parts_below-Child prefix [] name m = absurd (not-mem-nil m)
parts_below-Child prefix (path ∷ paths) name m = elim (Option-cases (without_prefix prefix path)) [
  | inl e ↦
      later (subst (λ l. Mem name l) (parts_below_skip prefix path paths e) m)
        (parts_below-Child prefix paths name)
  | inr (p, e) ↦
      Or.elim (hlevel)
        (mem-cons.0 (subst (λ l. Mem name l) (parts_below_take prefix path paths p e) m))
        (λ is. ∣ Child-here prefix path paths name p e is ∣₁)
        (λ k. later k (parts_below-Child prefix paths name))
]
  where
    later :
        Mem name (parts_below prefix paths)
        → (Mem name (parts_below prefix paths) → ∥ Child prefix paths name ∥₁)
        → ∥ Child prefix (path ∷ paths) name ∥₁
    later k rest = ∥∥₁_elim (rest k) (hlevel) (λ h. ∣ Child-more prefix path paths name h ∣₁)

Child-parts_below :
    (prefix : Bytes) (paths : List Bytes) (name : Bytes)
    → Child prefix paths name
    → Mem name (parts_below prefix paths)
unfolding parts_below
Child-parts_below prefix [] name h = absurd (not-mem-nil h.registered)
Child-parts_below prefix (path ∷ paths) name h =
    Or.elim Mem-prop (mem-cons.0 h.registered)
      (λ e.
        subst (λ l. Mem name l)
          (sym (
            parts_below_take prefix path paths (name ++ h.tail)
              (ap (without_prefix prefix) (sym e) ∙ without_prefix-append prefix (name ++ h.tail))))
          (mem-cons.1 (Or.inl (sym (first_part-append name h.tail h.plain h.ends)))))
      (λ k. parts_below_more prefix path paths name (
        Child-parts_below prefix paths name
          (record { tail = h.tail; plain = h.plain; ends = h.ends; registered = k })))

-- The child nodes of a prefix are in ascending order, so that none is there twice, and they are
-- exactly the names without a slash that follow the prefix in some registered path, up to its end
-- or up to the next slash.
pub child_nodes_from_prefix_lem :
    (prefix : Bytes) (paths : List Bytes)
    → Ascending (child_nodes_from_prefix prefix paths)
      × ((name : Bytes)
          → Mem name (child_nodes_from_prefix prefix paths) ↔ ∥ Child prefix paths name ∥₁)
unfolding child_nodes_from_prefix
child_nodes_from_prefix_lem prefix paths = (
  unique-Ascending (parts_below prefix paths),
  λ name. (
    λ m. parts_below-Child prefix paths name ((mem-unique name (parts_below prefix paths)).1 m),
    λ c.
        (mem-unique name (parts_below prefix paths)).0
          (∥∥₁_elim c Mem-prop (Child-parts_below prefix paths name)),
  ),
)
