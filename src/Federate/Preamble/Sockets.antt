-- ===== src/Federate/Preamble/Sockets.antt =====
-- The socket arrays: the loops that clear them, and what one write changes.
use lf_autoware.Base.{
  ℕ, zero, suc, ◌≡◌, refl, sym, ◌∙◌, false, ◌&&◌, ◌||◌, List, [], ◌∷◌, arith, ℤ, pos, negsuc, set,
  length, replicate, length-replicate, write_from, write_from-nil, write_from-cons, write_all, ltb,
  ◌==◌,
}
use lf_autoware.Federate.Runtime.{number_of_federates, clear_from}
use lf_autoware.Federate.Preamble.Defs.{is_open, no_sockets}

pub is_open-set :
    (xs : List ℤ) (k s j : ℕ)
    → is_open (set xs k (pos s)) j ≡ ((k == j && ltb j (length xs)) || is_open xs j)
is_open-set [] k s j = ground arith
is_open-set (x ∷ xs) zero s zero = ground arith
is_open-set (x ∷ xs) zero s (suc j) = ground arith
is_open-set (pos x ∷ xs) (suc k) s zero = ground arith
is_open-set (negsuc x ∷ xs) (suc k) s zero = ground arith
is_open-set (x ∷ xs) (suc k) s (suc j) = ground (arith, is_open-set xs k s j)

pub is_open-replicate : (n j : ℕ) → is_open (replicate n (negsuc 0)) j ≡ false
is_open-replicate zero j = refl
is_open-replicate (suc n) zero = refl
is_open-replicate (suc n) (suc j) = is_open-replicate n j

clear_from_lem : (n i : ℕ) (s : List ℤ) → clear_from n i s ≡ write_from i (replicate n (negsuc 0)) s
unfolding clear_from
clear_from_lem zero i s = sym (write_from-nil i s)
clear_from_lem (suc n) i s = rw write_from-cons (clear_from_lem n (suc i) (set s i (negsuc 0)))

-- The loop over a socket array of the declared size leaves it with no socket.
pub clear-all :
    (s : List ℤ) → length s ≡ number_of_federates → clear_from number_of_federates 0 s ≡ no_sockets
clear-all s h =
    clear_from_lem number_of_federates 0 s
    ∙ write_all no_sockets s (h ∙ sym (length-replicate number_of_federates (negsuc 0)))
