-- ===== src/Stress/Writing.antt =====
-- What `write_all` of StressTest/test.cpp hands to the kernel.
use reactor_network_library.Prelude.{
  eintr, ℕ, ◌≤◌, ◌<◌, ◌≡◌, refl, sym, ap, ◌∙◌, inl, inr, true, false, some, List, [], ◌∷◌, ◌++◌,
  arith, ◌==◌, length, take, drop, append_assoc, take-append-drop, Bool-cases,
}
use reactor_network_library.Stress.{Answer, took, refused, write_all}

-- `::send` takes no more than it is given, until all is sent.
abbrev pub Within : List ℕ → List Answer → Type 0
Within buf [] = Unit {0}
Within [] (took w ∷ rs) = Unit {0}
Within (b ∷ buf) (took w ∷ rs) = (w ≤ length (b ∷ buf)) × Within (drop w (b ∷ buf)) rs
Within buf (refused errno ∷ rs) = Within buf rs

-- How `write_all` ends on some answers: all is sent, and answers are left, or only a part.
pub data Written (buf : List ℕ) (rs : List Answer) (final : List Answer) : Type 0 where
  whole :
      (left : List Answer)
      → write_all buf (rs ++ final) ≡ some (true, buf, left ++ final)
      → Written buf rs final
  cut :
      (taken rest : List ℕ) (left : List Answer)
      → write_all buf (rs ++ final) ≡ some (false, taken, left)
      → buf ≡ taken ++ rest
      → 0 < length rest
      → Written buf rs final

-- If the kernel refuses in the end, but for an interruption, `write_all` returns: it has handed on all
-- the bytes, in order, or the first ones.
pub write_all_lem :
    (rs : List Answer) (buf : List ℕ) (errno : ℕ) (later : List Answer)
    → (errno == eintr) ≡ false
    → Within buf rs
    → Written buf rs (refused errno ∷ later)
unfolding write_all
write_all_lem [] [] errno later other h = whole [] refl
write_all_lem [] (b ∷ buf) errno later other h =
    cut [] (b ∷ buf) later (rw (other, write_all) refl) refl (omega arith)
write_all_lem (took w ∷ rs) [] errno later other h = whole (took w ∷ rs) refl
write_all_lem (took w ∷ rs) (b ∷ buf) errno later other h = elim (Bool-cases (w == 0)) [
  | inl nothing ↦
      cut [] (b ∷ buf) (rs ++ refused errno ∷ later) (rw (nothing, write_all) refl) refl
        (omega arith)
  | inr something ↦ after something (write_all_lem rs (drop w (b ∷ buf)) errno later other h.1)
]
  where
    after :
        (w == 0) ≡ false
        → Written (drop w (b ∷ buf)) rs (refused errno ∷ later)
        → Written (b ∷ buf) (took w ∷ rs) (refused errno ∷ later)
    after some_sent (whole left e) = whole left (
        rw (some_sent, write_all)
          (rw (e, write_all)
            (ap (λ u. some (true, u, left ++ refused errno ∷ later))
              (take-append-drop w (b ∷ buf)))))
    after some_sent (cut taken rest left e parts more) =
        cut (take w (b ∷ buf) ++ taken) rest left
          (rw (some_sent, write_all) (rw (e, write_all) refl))
          (sym (take-append-drop w (b ∷ buf))
            ∙ ap (λ u. take w (b ∷ buf) ++ u) parts
            ∙ sym (append_assoc (take w (b ∷ buf)) taken rest))
          more
write_all_lem (refused e ∷ rs) [] errno later other h = whole (refused e ∷ rs) refl
write_all_lem (refused e ∷ rs) (b ∷ buf) errno later other h = elim (Bool-cases (e == eintr)) [
  | inl again ↦ retry again (write_all_lem rs (b ∷ buf) errno later other h)
  | inr bad ↦
      cut [] (b ∷ buf) (rs ++ refused errno ∷ later) (rw (bad, write_all) refl) refl (omega arith)
]
  where
    retry :
        (e == eintr) ≡ true
        → Written (b ∷ buf) rs (refused errno ∷ later)
        → Written (b ∷ buf) (refused e ∷ rs) (refused errno ∷ later)
    retry again (whole left run) = whole left (rw (again, write_all) run)
    retry again (cut taken rest left run parts more) =
        cut taken rest left (rw (again, write_all) run) parts more

pub Within-append :
    (rs : List Answer) (buf : List ℕ) (final : List Answer)
    → Within buf (rs ++ final)
    → Within buf rs
Within-append [] buf final h = tt
Within-append (took w ∷ rs) [] final h = tt
Within-append (took w ∷ rs) (b ∷ buf) final h = (h.0, Within-append rs (drop w (b ∷ buf)) final h.1)
Within-append (refused e ∷ rs) [] final h = Within-append rs [] final h
Within-append (refused e ∷ rs) (b ∷ buf) final h = Within-append rs (b ∷ buf) final h
