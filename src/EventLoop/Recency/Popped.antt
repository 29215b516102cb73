-- ===== src/EventLoop/Recency/Popped.antt =====
-- `removeTimeOutConnection` in general: the list need not be in the order of activity.
use mathlib.Core.List.{reverse-cons, reverse-reverse, map-append}
use reactor_network_library.Prelude.{
  ℕ, ◌≡◌, ◌≢◌, refl, sym, ap, ap₂, ◌∙◌, inl, inr, Bool, true, false, not, Option, none, some, List,
  [], ◌∷◌, ◌++◌, reverse, arith, ◌==◌, if◌then◌else◌, elem, lookup, erase, erase_all,
  lookup-erase_all, Distinct, elem-append, Bool-cases, Option-cases, subst, append-nil, ==_iff,
  ==_refl,
}
use reactor_network_library.EventLoop.Recency.{
  Node, Recency, is_timeout, expire, remove_timeout_connection,
}
use reactor_network_library.EventLoop.Recency.Index.{fds, value_of, conn_of, elem-value, IsIndexed}
use reactor_network_library.EventLoop.Recency.Keep.{
  keep, keep-append, keep-reverse, elem-reverse, fds-reverse, keep-IsIndexed, elem-keep,
}

-- Every connection in the list still exists.
abbrev pub AllHeld : (ℕ → Option ℕ) → List Node → Type 0
AllHeld lock [] = Unit {0}
AllHeld lock (n ∷ ns) = (lock n.conn ≢ none) × AllHeld lock ns

abbrev AllIn : List ℕ → Bool → List Node → Type 0
AllIn ks b [] = Unit {0}
AllIn ks b (n ∷ ns) = (elem n.fd ks ≡ b) × AllIn ks b ns

AllIn-cons : (k : ℕ) (ks : List ℕ) (ns : List Node) → AllIn ks true ns → AllIn (k ∷ ks) true ns
AllIn-cons k ks [] a = tt
AllIn-cons k ks (n ∷ ns) a = (ground arith, AllIn-cons k ks ns a.1)

AllIn-self : (ns : List Node) → AllIn (fds ns) true ns
AllIn-self [] = tt
AllIn-self (n ∷ ns) = (ground arith, AllIn-cons n.fd (fds ns) ns (AllIn-self ns))

NoneIn-cons :
    (k : ℕ) (ks : List ℕ) (ns : List Node)
    → elem k (fds ns) ≡ false
    → AllIn ks false ns
    → AllIn (k ∷ ks) false ns
NoneIn-cons k ks [] h a = tt
NoneIn-cons k ks (n ∷ ns) h a = (ground arith, NoneIn-cons k ks ns (ground arith) a.1)

NoneIn-nil : (ns : List Node) → AllIn [] false ns
NoneIn-nil [] = tt
NoneIn-nil (n ∷ ns) = (refl, NoneIn-nil ns)

-- The rest of a list without repetition shares nothing with its start.
NoneIn-rest :
    (popped left : List Node) → Distinct (fds (popped ++ left)) → AllIn (fds popped) false left
NoneIn-rest [] left d = NoneIn-nil left
NoneIn-rest (n ∷ popped) left d =
    NoneIn-cons n.fd (fds popped) left
      (ground (
        arith,
        elem-append n.fd (fds popped) (fds left),
        ap (elem n.fd) (map-append (λ (x : Node). x.fd) popped left),
      ))
      (NoneIn-rest popped left d.1)

keep_in :
    (ks : List ℕ) (ns : List Node)
    → AllIn ks true ns
    → (keep (λ n. elem n.fd ks) ns ≡ ns) × (keep (λ n. not (elem n.fd ks)) ns ≡ [])
unfolding keep
keep_in ks [] a = (refl, refl)
keep_in ks (n ∷ ns) a = rw a.0 (ap (◌∷◌ n) (keep_in ks ns a.1).0, (keep_in ks ns a.1).1)

keep_out :
    (ks : List ℕ) (ns : List Node)
    → AllIn ks false ns
    → (keep (λ n. elem n.fd ks) ns ≡ []) × (keep (λ n. not (elem n.fd ks)) ns ≡ ns)
unfolding keep
keep_out ks [] a = (refl, refl)
keep_out ks (n ∷ ns) a = rw a.0 ((keep_out ks ns a.1).0, ap (◌∷◌ n) (keep_out ks ns a.1).1)

keep_split :
    (popped left : List Node)
    → Distinct (fds (popped ++ left))
    → let p = λ (n : Node). elem n.fd (fds popped) in
      (keep p (popped ++ left) ≡ popped) × (keep (λ n. not (p n)) (popped ++ left) ≡ left)
keep_split popped left d =
    let inside = keep_in (fds popped) popped (AllIn-self popped) in
    let outside = keep_out (fds popped) left (NoneIn-rest popped left d) in
    (
      keep-append _ popped left ∙ ap₂ ◌++◌ inside.0 outside.0 ∙ append-nil popped,
      keep-append _ popped left ∙ ap₂ ◌++◌ inside.1 outside.1,
    )

Distinct-snoc : (xs : List ℕ) (x : ℕ) → Distinct xs → elem x xs ≡ false → Distinct (xs ++ x ∷ [])
Distinct-snoc [] x d h = (refl, tt)
Distinct-snoc (y ∷ xs) x d h =
    (ground (arith, elem-append y xs (x ∷ [])), Distinct-snoc xs x d.1 (ground arith))

Distinct-reverse : (xs : List ℕ) → Distinct xs → Distinct (reverse xs)
Distinct-reverse [] d = tt
Distinct-reverse (x ∷ xs) d =
    rw reverse-cons
      (Distinct-snoc (reverse xs) x (Distinct-reverse xs d.1) (elem-reverse x xs ∙ d.0))

popped-kept :
    (ns popped left : List Node)
    → Distinct (fds ns)
    → reverse ns ≡ popped ++ left
    → let p = λ (n : Node). elem n.fd (fds popped) in
      (reverse left ≡ keep (λ n. not (p n)) ns) × (fds popped ≡ reverse (fds (keep p ns)))
popped-kept ns popped left d e = (
  ap reverse (sym (keep_split popped left apart).1 ∙ ap (keep _) (sym e) ∙ keep-reverse _ ns)
      ∙ reverse-reverse _,
  ap fds (sym (keep_split popped left apart).0 ∙ ap (keep _) (sym e) ∙ keep-reverse _ ns)
      ∙ fds-reverse (keep (λ n. elem n.fd (fds popped)) ns),
)
  where
    apart : Distinct (fds (popped ++ left))
    apart = subst (λ xs. Distinct (fds xs)) e (rw fds-reverse (Distinct-reverse (fds ns) d))

-- What the list holds once the descriptors in `gone` are out.
pub value_of-gone :
    (f : Node → ℕ) (gone : List ℕ) (k : ℕ) (ns : List Node)
    → value_of f k (keep (λ n. not (elem n.fd gone)) ns)
      ≡ (if elem k gone then none else value_of f k ns)
unfolding keep value_of
value_of-gone f gone k [] = ground arith
value_of-gone f gone k (n ∷ ns) = elim (Bool-cases (n.fd == k)) [
  | inl same ↦
      let e : elem n.fd gone ≡ elem k gone = ap (λ j. elem j gone) ((==_iff _ _).0 same) in
      ground (arith, value_of-gone f gone k ns)
  | inr other ↦ ground (arith, value_of-gone f gone k ns)
]

-- Every connection is held if that of each descriptor is.
pub AllHeld-of_conns :
    (lock : ℕ → Option ℕ) (ns : List Node)
    → Distinct (fds ns)
    → ((fd conn : ℕ) → conn_of fd ns ≡ some conn → lock conn ≢ none)
    → AllHeld lock ns
unfolding value_of
AllHeld-of_conns lock [] d h = tt
AllHeld-of_conns lock (n ∷ ns) d h = (
  h n.fd n.conn (rw ==_refl refl),
  AllHeld-of_conns lock ns d.1
      (λ fd conn e. h fd conn (ground (arith, e, elem-value (λ n. n.conn) fd conn ns e))),
)

-- `gone` is a variable for the popped descriptors, so that it may be a computed list.
popped-IsIndexed :
    {s : Recency} (popped left : List Node) (gone : List ℕ) (m : List (ℕ × ℕ))
    → IsIndexed s
    → reverse s.lruconnection ≡ popped ++ left
    → m ≡ erase_all (fds popped) s.connectionmap
    → gone ≡ fds popped
    → (reverse left ≡ keep (λ n. not (elem n.fd gone)) s.lruconnection)
      × IsIndexed (record s { lruconnection = reverse left; connectionmap = m })
      × ((k : ℕ) → elem k gone ≡ true → elem k (fds s.lruconnection) ≡ true)
popped-IsIndexed {s} popped left gone m v e f g = (
  kept.0 ∙ ap (λ ks. keep (λ n. not (elem n.fd ks)) s.lruconnection) (sym g),
  subst (λ ns. IsIndexed (record s { lruconnection = ns; connectionmap = m })) (sym kept.0)
      (keep-IsIndexed (λ n. elem n.fd (fds popped)) m v indexed),
  inside,
)
  where
    kept :
        let p = λ (n : Node). elem n.fd (fds popped) in
        (reverse left ≡ keep (λ n. not (p n)) s.lruconnection)
        × (fds popped ≡ reverse (fds (keep p s.lruconnection)))
    kept = popped-kept s.lruconnection popped left v.distinct e

    indexed :
        (k : ℕ)
        → lookup k m ≡ (
            if elem k (fds (keep (λ n. elem n.fd (fds popped)) s.lruconnection))
            then none
            else lookup k s.connectionmap)
    indexed k =
        ap (lookup k) f
        ∙ lookup-erase_all (fds popped) k s.connectionmap
        ∙ ap (λ b. if b then none else lookup k s.connectionmap)
            (ap (elem k) kept.1 ∙ elem-reverse k _)

    inside : (k : ℕ) → elem k gone ≡ true → elem k (fds s.lruconnection) ≡ true
    inside k h =
        let at : elem k (fds (keep (λ n. elem n.fd (fds popped)) s.lruconnection)) ≡ true =
          sym (elem-reverse k _) ∙ ap (elem k) (sym kept.1 ∙ sym g) ∙ h in
        ground (arith, at, elem-keep (λ n. elem n.fd (fds popped)) k s.lruconnection)

AllHeld-snoc :
    (lock : ℕ → Option ℕ) (ns : List Node) (n : Node)
    → AllHeld lock ns
    → lock n.conn ≢ none
    → AllHeld lock (ns ++ n ∷ [])
AllHeld-snoc lock [] n a h = (h, tt)
AllHeld-snoc lock (x ∷ ns) n a h = (a.0, AllHeld-snoc lock ns n a.1 h)

AllHeld-reverse :
    (lock : ℕ → Option ℕ) (ns : List Node) → AllHeld lock ns → AllHeld lock (reverse ns)
AllHeld-reverse lock [] a = tt
AllHeld-reverse lock (n ∷ ns) a =
    rw reverse-cons (AllHeld-snoc lock (reverse ns) n (AllHeld-reverse lock ns a.1) a.0)

module _ (lock : ℕ → Option ℕ) (now interval : ℕ) where
  -- The loop takes a part off the back of the list, and its descriptors out of the map.
  expire_split :
      (ns : List Node) (m : List (ℕ × ℕ))
      → AllHeld lock ns
      → let (left, m', gone) = expire lock now interval ns m in
        (popped : List Node) × (ns ≡ popped ++ left)
        × (m' ≡ erase_all (fds popped) m)
        × (gone ≡ fds popped)
  unfolding expire erase_all
  expire_split [] m h = ([], refl, refl, refl)
  expire_split (n ∷ ns) m h = elim (Option-cases (lock n.conn)) [
    | inl dead ↦ absurd (h.0 dead)
    | inr (last, e) ↦ elim (Bool-cases (is_timeout now last interval)) [
      | inl old ↦
          let (popped, split, left, gone) = expire_split ns (erase n.fd m) h.1 in
          rw (e, expire) (rw old (n ∷ popped, ap (◌∷◌ n) split, left, ap (◌∷◌ n.fd) gone))
      | inr recent ↦ rw (e, expire) (rw recent ([], refl, refl, refl))
    ]
  ]

  -- What is left is the list without the descriptors that the server is told of, still indexed.
  pub remove_popped :
      (s : Recency)
      → IsIndexed s
      → AllHeld lock s.lruconnection
      → let (t, gone) = remove_timeout_connection lock now interval s in
        (t.lruconnection ≡ keep (λ n. not (elem n.fd gone)) s.lruconnection)
        × IsIndexed t
        × ((k : ℕ) → elem k gone ≡ true → elem k (fds s.lruconnection) ≡ true)
        × (t.delay_delete_connectionfd ≡ s.delay_delete_connectionfd)
  unfolding remove_timeout_connection
  remove_popped s v h =
      let (popped, split, left, gone) =
        expire_split (reverse s.lruconnection) s.connectionmap
          (AllHeld-reverse lock s.lruconnection h) in
      let (kept, indexed, inside) = popped-IsIndexed popped _ _ _ v split left gone in
      (kept, indexed, inside, refl)
