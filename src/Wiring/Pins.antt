-- ===== src/Wiring/Pins.antt =====
-- The test on pins tells whether they are equal.
use text.Mathlib.Text.{◌==◌}
use text.Mathlib.TextEquality.{eq_iff}
use lf_autoware.Base.{String, ◌≡◌, refl, true, and_true, List, [], ◌∷◌}
use lf_autoware.Wiring.{Pin, path_eq, pin_eq}

pub eq_of_path_eq : (xs ys : List String) → path_eq xs ys ≡ true → xs ≡ ys
eq_of_path_eq [] [] h = refl
eq_of_path_eq [] (y ∷ ys) h = cc
eq_of_path_eq (x ∷ xs) [] h = cc
eq_of_path_eq (x ∷ xs) (y ∷ ys) h =
    let (a, b) = and_true (x == y) (path_eq xs ys) h in
    let same : x ≡ y = (eq_iff x y).0 a in let rest : xs ≡ ys = eq_of_path_eq xs ys b in cc

pub eq_of_pin_eq : (p q : Pin) → pin_eq p q ≡ true → p ≡ q
eq_of_pin_eq p q h =
    let (a, b) = and_true (p.port == q.port) (path_eq p.path q.path) h in
    let port : p.port ≡ q.port = (eq_iff p.port q.port).0 a in
    let path : p.path ≡ q.path = eq_of_path_eq p.path q.path b in
    λ i. record { path = path i; port = port i }
