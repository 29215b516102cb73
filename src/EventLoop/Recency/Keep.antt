-- ===== src/EventLoop/Recency/Keep.antt =====
-- The nodes of a list that pass a test, and the index of what is left without them.
use mathlib.Core.List.{reverse-cons, map-append}
use reactor_network_library.Prelude.{
  ℕ, ◌≡◌, refl, sym, ap, ◌∙◌, Bool, false, not, none, List, [], ◌∷◌, ◌++◌, reverse, arith,
  if◌then◌else◌, elem, lookup, Distinct, elem-append, append-nil,
}
use reactor_network_library.EventLoop.Recency.{Node, Recency, deref}
use reactor_network_library.EventLoop.Recency.Index.{fds, value_of, Fresh, IsIndexed, value-absent}

-- The nodes that pass a test, in order.
unfoldable pub keep : (Node → Bool) → List Node → List Node
keep p [] = []
keep p (n ∷ ns) = if p n then n ∷ keep p ns else keep p ns

pub elem-keep :
    (p : Node → Bool) (k : ℕ) (ns : List Node)
    → elem k (fds ns) ≡ false
    → elem k (fds (keep p ns)) ≡ false
unfolding keep
elem-keep p k [] h = refl
elem-keep p k (n ∷ ns) h = ground (arith, elem-keep p k ns)

pub Distinct-keep :
    (p : Node → Bool) (ns : List Node) → Distinct (fds ns) → Distinct (fds (keep p ns))
unfolding keep
Distinct-keep p [] d = tt
Distinct-keep p (n ∷ ns) d = ground (arith, Distinct-keep p ns d.1, elem-keep p n.fd ns d.0)

deref-keep :
    (p : Node → Bool) (q : ℕ) (ns : List Node) → deref q ns ≡ none → deref q (keep p ns) ≡ none
unfolding keep deref
deref-keep p q [] h = refl
deref-keep p q (n ∷ ns) h = ground (arith, deref-keep p q ns)

pub Fresh-keep : (p : Node → Bool) (k : ℕ) (ns : List Node) → Fresh k ns → Fresh k (keep p ns)
unfolding keep
Fresh-keep p k [] f = tt
Fresh-keep p k (n ∷ ns) f = ground (arith, Fresh-keep p k ns f.2, deref-keep p n.place ns)

-- Where a descriptor is once the nodes that pass are gone.
pub value_of-keep :
    (f : Node → ℕ) (p : Node → Bool) (k : ℕ) (ns : List Node)
    → Distinct (fds ns)
    → value_of f k (keep (λ n. not (p n)) ns)
      ≡ (if elem k (fds (keep p ns)) then none else value_of f k ns)
unfolding keep value_of
value_of-keep f p k [] d = refl
value_of-keep f p k (n ∷ ns) d =
    ground (arith, value_of-keep f p k ns d.1, value-absent f k ns, elem-keep p k ns)

pub keep-append : (p : Node → Bool) (xs ys : List Node) → keep p (xs ++ ys) ≡ keep p xs ++ keep p ys
unfolding keep
keep-append p [] ys = refl
keep-append p (x ∷ xs) ys = ground (arith, keep-append p xs ys)

pub keep-reverse : (p : Node → Bool) (ns : List Node) → keep p (reverse ns) ≡ reverse (keep p ns)
unfolding keep
keep-reverse p [] = refl
keep-reverse p (n ∷ ns) =
    rw (reverse-cons n ns, keep-append p (reverse ns) (n ∷ []), keep-reverse p ns)
      (ground (arith, reverse-cons n (keep p ns), append-nil (reverse (keep p ns))))

pub elem-reverse : (k : ℕ) (xs : List ℕ) → elem k (reverse xs) ≡ elem k xs
elem-reverse k [] = refl
elem-reverse k (x ∷ xs) =
    ap (elem k) (reverse-cons x xs)
    ∙ elem-append k (reverse xs) (x ∷ [])
    ∙ ground (arith, elem-reverse k xs)

pub fds-reverse : (ns : List Node) → fds (reverse ns) ≡ reverse (fds ns)
fds-reverse [] = refl
fds-reverse (n ∷ ns) =
    rw (reverse-cons n ns, map-append (λ (x : Node). x.fd) (reverse ns) (n ∷ []), fds-reverse ns)
      (sym (reverse-cons n.fd (fds ns)))

-- A list that loses the nodes that pass, with a map that loses their descriptors, stays indexed.
pub keep-IsIndexed :
    (p : Node → Bool) {s : Recency} (m : List (ℕ × ℕ))
    → IsIndexed s
    → ((k : ℕ)
        → lookup k m
          ≡ (if elem k (fds (keep p s.lruconnection)) then none else lookup k s.connectionmap))
    → IsIndexed
        (record s { lruconnection = keep (λ n. not (p n)) s.lruconnection; connectionmap = m })
keep-IsIndexed p {s} m v h = record {
  index = λ k.
      h k
      ∙ ap (λ o. if elem k (fds (keep p s.lruconnection)) then none else o) (v.index k)
      ∙ sym (value_of-keep (λ n. n.place) p k s.lruconnection v.distinct);
  distinct = Distinct-keep _ s.lruconnection v.distinct;
  fresh = Fresh-keep _ s.next_place s.lruconnection v.fresh;
}
