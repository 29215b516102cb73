-- ===== src/Channel/Kernel/Listed.antt =====
-- A kernel whose interest list is an association list: what epoll_ctl(2) documents can be met.
use reactor_network_library.Prelude.{
  ℕ, ◌≡◌, refl, ◌∙◌, inl, inr, Bool, true, false, Option, none, some, List, lookup, insert, erase,
  lookup-insert, lookup-erase, ==_refl, ◌==◌, Option-cases,
}
use reactor_network_library.Channel.{CtlOp, ctl_add, ctl_mod, ctl_del}
use reactor_network_library.Channel.Kernel.{Documented, OwnDescriptor, Kernel}

abbrev pub Interests : Type 0
Interests = List (ℕ × ℕ)

abbrev pub ctl_list : Interests → CtlOp → ℕ → ℕ → Bool × Interests
ctl_list k ctl_add fd ev = elim (lookup fd k) [
  | none ↦ (true, insert fd ev k)
  | some old ↦ (false, k)
]
ctl_list k ctl_mod fd ev = elim (lookup fd k) [
  | none ↦ (false, k)
  | some old ↦ (true, insert fd ev k)
]
ctl_list k ctl_del fd ev = elim (lookup fd k) [ none ↦ (false, k) | some old ↦ (true, erase fd k) ]

abbrev pub registered_list : Interests → ℕ → Option ℕ
registered_list k fd = lookup fd k

inserted : (fd ev : ℕ) (k : Interests) → lookup fd (insert fd ev k) ≡ some ev
inserted fd ev k = lookup-insert fd fd ev k ∙ rw ==_refl refl

erased : (fd : ℕ) (k : Interests) → lookup fd (erase fd k) ≡ none
erased fd k = lookup-erase fd fd k ∙ rw ==_refl refl

pub list_documented : Documented ctl_list registered_list
list_documented = record {
  add_new = λ k fd ev e. rw (e, ctl_list) (refl, inserted fd ev k);
  mod_old = λ k fd ev old e. rw (e, ctl_list) (refl, inserted fd ev k);
  mod_new = λ k fd ev e. rw (e, ctl_list) (refl, e);
  del_old = λ k fd old e. rw (e, ctl_list) (refl, erased fd k);
}

apart_inserted :
    (fd other ev : ℕ) (k : Interests)
    → (fd == other) ≡ false
    → lookup other (insert fd ev k) ≡ lookup other k
apart_inserted fd other ev k h = lookup-insert fd other ev k ∙ rw h refl

apart_erased :
    (fd other : ℕ) (k : Interests)
    → (fd == other) ≡ false
    → lookup other (erase fd k) ≡ lookup other k
apart_erased fd other k h = lookup-erase fd other k ∙ rw h refl

ctl_list-others :
    (op : CtlOp) (k : Interests) (fd ev other : ℕ)
    → (fd == other) ≡ false
    → registered_list (ctl_list k op fd ev).1 other ≡ registered_list k other
ctl_list-others ctl_add k fd ev other h = elim (Option-cases (lookup fd k)) [
  | inl absent ↦ rw (absent, ctl_list) (apart_inserted fd other ev k h)
  | inr (old, e) ↦ rw (e, ctl_list) refl
]
ctl_list-others ctl_mod k fd ev other h = elim (Option-cases (lookup fd k)) [
  | inl absent ↦ rw (absent, ctl_list) refl
  | inr (old, e) ↦ rw (e, ctl_list) (apart_inserted fd other ev k h)
]
ctl_list-others ctl_del k fd ev other h = elim (Option-cases (lookup fd k)) [
  | inl absent ↦ rw (absent, ctl_list) refl
  | inr (old, e) ↦ rw (e, ctl_list) (apart_erased fd other k h)
]

pub list_own : OwnDescriptor ctl_list registered_list
list_own = record { others = λ k op fd ev other h. ctl_list-others op k fd ev other h }

abbrev pub listed : Kernel Interests
listed = record {
  ctl = ctl_list;
  registered = registered_list;
  documented = list_documented;
  own = list_own;
}
