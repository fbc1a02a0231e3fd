-- ===== src/RefPtr.antt =====
-- RefCnt and RefPtr of include/dbus-c++/util.h. The counters are a store by address, in which
-- `none` is memory that is not allocated; an operation gives `none` when it reads or writes such
-- memory.
pub mod Program
pub mod Counts
pub mod Invariant
pub mod Release
pub mod Sound
pub mod Making
pub mod Reachable
pub mod Refinement
mod Examples
use dbus_cplusplus.Common.{
  ℕ, zero, suc, Bool, true, false, List, [], ◌∷◌, Option, none, some, ◌==◌, if◌then◌else◌,
}

-- The counters, the address of the next one, and the objects that were deleted, the last first.
pub record Store : Type 0 where
  pub counters : ℕ → Option ℕ
  pub next : ℕ
  pub deleted : List ℕ

-- __ptr, 0 for the null pointer, and the counter of __cnt
pub record RefPtr : Type 0 where
  pub ptr : ℕ
  pub cnt : ℕ

abbrev pub put : ℕ → Option ℕ → Store → Store
put c n s = record s { counters = λ k. if k == c then n else s.counters k }

-- RefCnt::RefCnt
unfoldable pub new_counter : Store → Store × ℕ
new_counter s = (record (put s.next (some 1) s) { next = suc s.next }, s.next)

-- RefCnt::ref
unfoldable pub ref : ℕ → Store → Option Store
ref c s = elim (s.counters c) [ none ↦ none | some n ↦ some (put c (some (suc n)) s) ]

-- RefCnt::unref, where the counter is at some number: one that reaches 0 is deleted, so that 0
-- stands in none.
unfoldable pub unref_from : ℕ → ℕ → Store → Option Store
unref_from c zero s = none
unref_from c (suc zero) s = some (put c none s)
unref_from c (suc (suc n)) s = some (put c (some (suc n)) s)

unfoldable pub unref : ℕ → Store → Option Store
unfolding unref_from
unref c s = elim (s.counters c) [ none ↦ none | some n ↦ unref_from c n s ]

-- RefCnt::one
unfoldable pub one : ℕ → Store → Option Bool
one c s = elim (s.counters c) [ none ↦ none | some n ↦ some (n == 1) ]

-- RefCnt::noref
unfoldable pub noref : ℕ → Store → Option Bool
noref c s = elim (s.counters c) [ none ↦ none | some n ↦ some (n == 0) ]

-- delete __ptr
abbrev pub delete : ℕ → Store → Store
delete p s = if p == 0 then s else record s { deleted = p ∷ s.deleted }

-- if (__cnt.one()) delete __ptr;
unfoldable pub let_go : RefPtr → Store → Option Store
unfolding one
let_go p s = elim (one p.cnt s) [
  | none ↦ none
  | some last ↦ some (if last then delete p.ptr s else s)
]

-- RefPtr::RefPtr(ptr)
unfoldable pub new_ref_ptr : ℕ → Store → Store × RefPtr
unfolding new_counter
new_ref_ptr ptr s = let (s', c) = new_counter s in (s', record { ptr = ptr; cnt = c })

-- RefPtr's implicit copy constructor: that of RefCnt takes the counter and adds 1.
unfoldable pub copy : RefPtr → Store → Option Store
unfolding ref
copy p s = ref p.cnt s

-- RefPtr::~RefPtr, and then ~RefCnt of its member
unfoldable pub destroy : RefPtr → Store → Option Store
unfolding let_go unref
destroy p s = elim (let_go p s) [ none ↦ none | some s' ↦ unref p.cnt s' ]

-- RefCnt::operator=
unfoldable pub assign_counter : ℕ → ℕ → Store → Option Store
unfolding ref unref
assign_counter c r s = elim (ref r s) [ none ↦ none | some s' ↦ unref c s' ]

-- RefPtr::operator= of a pointer from another: its fields are those of `q` afterwards.
unfoldable pub assign : RefPtr → RefPtr → Store → Option Store
unfolding let_go assign_counter
assign p q s = elim (let_go p s) [ none ↦ none | some s' ↦ assign_counter p.cnt q.cnt s' ]

-- RefPtr::get, and operator->
unfoldable pub get : RefPtr → Store → Option ℕ
unfolding noref
get p s = elim (noref p.cnt s) [ none ↦ none | some gone ↦ some (if gone then 0 else p.ptr) ]
