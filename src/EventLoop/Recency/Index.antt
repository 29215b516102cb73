-- ===== src/EventLoop/Recency/Index.antt =====
-- The map `m_connectionmap` as an index of the list.
use reactor_network_library.Prelude.{
  ℕ, ◌≤◌, ◌<◌, ◌≡◌, refl, ap, inl, inr, true, false, Option, none, some, List, [], ◌∷◌, map, arith,
  ◌==◌, if◌then◌else◌, elem, lookup, Distinct, Bool-cases,
}
use reactor_network_library.EventLoop.Recency.{Node, Recency, deref, unlink}

abbrev pub fds : List Node → List ℕ
fds = map (λ (n : Node). n.fd)

-- What the list holds for a descriptor: the node's number, its connection.
unfoldable pub value_of : (Node → ℕ) → ℕ → List Node → Option ℕ
value_of f fd [] = none
value_of f fd (n ∷ ns) = if n.fd == fd then some (f n) else value_of f fd ns

abbrev pub place_of : ℕ → List Node → Option ℕ
place_of = value_of (λ n. n.place)

abbrev pub conn_of : ℕ → List Node → Option ℕ
conn_of = value_of (λ n. n.conn)

-- The nodes' numbers are distinct and below the next one.
abbrev pub Fresh : ℕ → List Node → Type 0
Fresh k [] = Unit {0}
Fresh k (n ∷ ns) = (n.place < k) × (deref n.place ns ≡ none) × Fresh k ns

pub record IsIndexed (s : Recency) : Type 0 where
  pub index : (fd : ℕ) → lookup fd s.connectionmap ≡ place_of fd s.lruconnection
  pub distinct : Distinct (fds s.lruconnection)
  pub fresh : Fresh s.next_place s.lruconnection

-- The list without a descriptor.
unfoldable pub without : ℕ → List Node → List Node
without fd [] = []
without fd (n ∷ ns) = if n.fd == fd then ns else n ∷ without fd ns

pub deref-Fresh : (k p : ℕ) (ns : List Node) → Fresh k ns → k ≤ p → deref p ns ≡ none
unfolding deref
deref-Fresh k p [] f h = refl
deref-Fresh k p (n ∷ ns) f h = ground (arith, deref-Fresh k p ns f.2 h)

pub Fresh-mono : (j k : ℕ) (ns : List Node) → j ≤ k → Fresh j ns → Fresh k ns
Fresh-mono j k [] h f = tt
Fresh-mono j k (n ∷ ns) h f = (omega arith, f.1, Fresh-mono j k ns h f.2)

pub value-absent :
    (f : Node → ℕ) (fd : ℕ) (ns : List Node) → elem fd (fds ns) ≡ false → value_of f fd ns ≡ none
unfolding value_of
value-absent f fd [] h = refl
value-absent f fd (n ∷ ns) h = ground (arith, value-absent f fd ns)

pub elem-value :
    (f : Node → ℕ) (fd p : ℕ) (ns : List Node) → value_of f fd ns ≡ some p → elem fd (fds ns) ≡ true
unfolding value_of
elem-value f fd p [] e = cc
elem-value f fd p (n ∷ ns) e = ground (arith, elem-value f fd p ns)

pub elem-no_value :
    (f : Node → ℕ) (fd : ℕ) (ns : List Node) → value_of f fd ns ≡ none → elem fd (fds ns) ≡ false
unfolding value_of
elem-no_value f fd [] e = refl
elem-no_value f fd (n ∷ ns) e = ground (arith, elem-no_value f fd ns)

-- The node at a descriptor's place is that descriptor's, and unlinking it takes the descriptor out.
pub deref-place :
    (fd p k : ℕ) (ns : List Node)
    → Fresh k ns
    → place_of fd ns ≡ some p
    → (n : Node) × (deref p ns ≡ some n)
      × (n.fd ≡ fd)
      × (n.place ≡ p)
      × (unlink p ns ≡ without fd ns)
      × (p < k)
      × (deref p (without fd ns) ≡ none)
      × (conn_of fd ns ≡ some n.conn)
unfolding value_of deref unlink without
deref-place fd p k [] f e = cc
deref-place fd p k (n ∷ ns) f e = elim (Bool-cases (n.fd == fd)) [
  | inl same ↦ (
    n,
    ground arith,
    ground arith,
    ground arith,
    ground arith,
    ground arith,
    ground arith,
    ground arith,
  )
  | inr other ↦
      let tail : place_of fd ns ≡ some p = ground arith in
      let (x, found, is_fd, at, cut, below, gone, conn) = deref-place fd p k ns f.2 tail in
      let apart : (n.place == p) ≡ false = ground arith in
      (
        x,
        rw apart found,
        is_fd,
        at,
        rw (apart, other) (ap (◌∷◌ n) cut),
        below,
        rw (other, deref) (rw apart gone),
        rw other conn,
      )
]

deref-without : (q fd : ℕ) (ns : List Node) → deref q ns ≡ none → deref q (without fd ns) ≡ none
unfolding deref without
deref-without q fd [] h = refl
deref-without q fd (n ∷ ns) h = ground (arith, deref-without q fd ns)

pub Fresh-without : (k fd : ℕ) (ns : List Node) → Fresh k ns → Fresh k (without fd ns)
unfolding without
Fresh-without k fd [] f = tt
Fresh-without k fd (n ∷ ns) f =
    ground (arith, Fresh-without k fd ns f.2, deref-without n.place fd ns)

pub elem-without :
    (k fd : ℕ) (ns : List Node)
    → Distinct (fds ns)
    → elem k (fds (without fd ns)) ≡ (if fd == k then false else elem k (fds ns))
unfolding without
elem-without k fd [] d = ground arith
elem-without k fd (n ∷ ns) d = ground (arith, elem-without k fd ns d.1)

pub Distinct-without :
    (fd : ℕ) (ns : List Node) → Distinct (fds ns) → Distinct (fds (without fd ns))
unfolding without
Distinct-without fd [] d = tt
Distinct-without fd (n ∷ ns) d =
    ground (arith, Distinct-without fd ns d.1, elem-without n.fd fd ns d.1)

pub value_of-without :
    (f : Node → ℕ) (k fd : ℕ) (ns : List Node)
    → Distinct (fds ns)
    → value_of f k (without fd ns) ≡ (if fd == k then none else value_of f k ns)
unfolding value_of without
value_of-without f k fd [] d = ground arith
value_of-without f k fd (n ∷ ns) d =
    ground (arith, value_of-without f k fd ns d.1, value-absent f fd ns)

pub without-absent : (fd : ℕ) (ns : List Node) → elem fd (fds ns) ≡ false → without fd ns ≡ ns
unfolding without
without-absent fd [] h = refl
without-absent fd (n ∷ ns) h = ground (arith, without-absent fd ns)
