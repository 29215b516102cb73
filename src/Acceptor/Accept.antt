-- ===== src/Acceptor/Accept.antt =====
-- Which clients `onconnect` takes, and what it does without a free descriptor.
use reactor_network_library.Prelude.{
  eintr, emfile, enfile, ℕ, zero, suc, ◌≡◌, refl, Bool, true, false, ◌||◌, none, some, List, [],
  ◌∷◌, ◌++◌, arith, ◌==◌, replicate,
}
use reactor_network_library.Acceptor.{Answer, accepted, failed, onconnect}

-- An answer after which `accept4` is called again.
abbrev pub goes_on : Answer → Bool
goes_on (accepted fd nodelay) = true
goes_on (failed errno) = (errno == eintr) || ((errno == emfile) || (errno == enfile))

-- The descriptors among some answers on which `setnodelayopt` succeeded.
unfoldable pub taken : List Answer → List ℕ
taken [] = []
taken (accepted fd true ∷ answers) = fd ∷ taken answers
taken (accepted fd false ∷ answers) = taken answers
taken (failed errno ∷ answers) = taken answers

unfoldable pub AllGoOn : List Answer → Type 0
AllGoOn [] = Unit {0}
AllGoOn (a ∷ answers) = (goes_on a ≡ true) × AllGoOn answers

-- `onconnect` goes through all answers up to the first that ends it, an error that is none of EINTR,
-- EMFILE and ENFILE, and hands on each descriptor that it could set up, once and in order.
pub onconnect_lem :
    (answers later : List Answer) (errno : ℕ)
    → AllGoOn answers
    → goes_on (failed errno) ≡ false
    → onconnect (answers ++ failed errno ∷ later) ≡ some (taken answers)
unfolding onconnect taken AllGoOn
onconnect_lem [] later errno go stop = ground arith
onconnect_lem (accepted fd true ∷ answers) later errno go stop =
    rw (onconnect_lem answers later errno go.1 stop) refl
onconnect_lem (accepted fd false ∷ answers) later errno go stop =
    onconnect_lem answers later errno go.1 stop
onconnect_lem (failed e ∷ answers) later errno go stop =
    ground (arith, onconnect_lem answers later errno go.1 stop, go.0)

-- While the process has no free descriptor, EMFILE is the answer to every call, and after any number
-- of calls `onconnect` has not returned.
pub onconnect-emfile : (n : ℕ) → onconnect (replicate n (failed emfile)) ≡ none
unfolding onconnect
onconnect-emfile zero = refl
onconnect-emfile (suc n) = onconnect-emfile n
