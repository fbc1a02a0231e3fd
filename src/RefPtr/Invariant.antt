-- ===== src/RefPtr/Invariant.antt =====
-- Every counter of include/dbus-c++/util.h counts the live pointers that use it: what the
-- operations do to counters that count.
use dbus_cplusplus.Common.{
  ℕ, zero, suc, ◌≡◌, ◌≢◌, refl, sym, ap, ◌∙◌, true, List, Option, none, some, ◌==◌, ==_iff,
  if◌then◌else◌, Bool-cases, inl, inr,
}
use dbus_cplusplus.RefPtr.{Store, RefPtr, put, ref, unref, unref_from, one, delete, let_go}

-- What stands at the address of a counter with some users.
unfoldable pub shown : ℕ → Option ℕ
shown zero = none
shown (suc n) = some (suc n)

pub shown_used : (n : ℕ) → n ≢ 0 → shown n ≡ some n
unfolding shown
shown_used zero h = absurd (h refl)
shown_used (suc n) h = refl

unref_from_lem : (c n : ℕ) (s : Store) → unref_from c (suc n) s ≡ some (put c (shown n) s)
unfolding unref_from shown
unref_from_lem c zero s = refl
unref_from_lem c (suc n) s = refl

abbrev pub Counted : Store → (ℕ → ℕ) → Type 0
Counted s u = (c : ℕ) → s.counters c ≡ shown (u c)

-- One more user of a counter.
abbrev pub more : ℕ → (ℕ → ℕ) → ℕ → ℕ
more c u d = if d == c then suc (u d) else u d

-- An operation that comes to an end, with these users, these deletions and this next address.
pub record Ends (o : Option Store) (u : ℕ → ℕ) (deleted : List ℕ) (next : ℕ) : Type 0 where
  pub store : Store
  pub ends : o ≡ some store
  pub counted : Counted store u
  pub same_deleted : store.deleted ≡ deleted
  pub same_next : store.next ≡ next

pub recount :
    {o : Option Store} {u v : ℕ → ℕ} {deleted : List ℕ} {next : ℕ}
    → ((c : ℕ) → u c ≡ v c)
    → Ends o u deleted next
    → Ends o v deleted next
recount e r = record {
  store = r.store;
  ends = r.ends;
  counted = λ c. r.counted c ∙ ap shown (e c);
  same_deleted = r.same_deleted;
  same_next = r.same_next;
}

pub ref-Ends :
    (c : ℕ) (s : Store) (u : ℕ → ℕ)
    → Counted s u
    → u c ≢ 0
    → Ends (ref c s) (more c u) s.deleted s.next
unfolding ref shown
ref-Ends c s u h used = record {
  store = put c (some (suc (u c))) s;
  ends = rw (ref, h c, shown_used (u c) used) refl;
  counted = λ d. elim (Bool-cases (d == c)) [
    | inl hit ↦ rw hit (ap (λ k. some (suc (u k))) (sym ((==_iff d c).0 hit)))
    | inr miss ↦ rw miss (h d)
  ];
  same_deleted = refl;
  same_next = refl;
}

pub unref-Ends :
    (c : ℕ) (s : Store) (u : ℕ → ℕ) → Counted s (more c u) → Ends (unref c s) u s.deleted s.next
unfolding unref unref_from shown
unref-Ends c s u h = record {
  store = put c (shown (u c)) s;
  ends =
      let same : (c == c) ≡ true = (==_iff c c).1 refl in
      rw (unref, h c, same) (unref_from_lem c (u c) s);
  counted = λ d. elim (Bool-cases (d == c)) [
    | inl hit ↦ rw hit (ap (λ k. shown (u k)) (sym ((==_iff d c).0 hit)))
    | inr miss ↦ rw miss (h d ∙ rw miss refl)
  ];
  same_deleted = refl;
  same_next = refl;
}

pub let_go_lem :
    (p : RefPtr) (s : Store) (u : ℕ → ℕ)
    → Counted s u
    → u p.cnt ≢ 0
    → let_go p s ≡ some (if u p.cnt == 1 then delete p.ptr s else s)
unfolding let_go one shown
let_go_lem p s u h used = rw (let_go, one, h p.cnt, shown_used (u p.cnt) used) refl
