-- ===== src/Wiring/Sources.antt =====
-- An input has at most one source.
use lf_autoware.Base.{
  ℕ, ◌+◌, ◌≤◌, ◌≡◌, refl, Bool, true, ◌&&◌, List, [], ◌∷◌, arith, All, ◌==◌, and_true, All-all,
  if◌then◌else◌, Bool-cases, inl, inr, ap,
}
use lf_autoware.Wiring.{Reactor, Pin, pin_eq, Edge, edges}
use lf_autoware.Wiring.Pins.{eq_of_pin_eq}
use lf_autoware.Wiring.Typed.{all_mains}

-- Connections that lead into a pin.
abbrev pub incoming : List Edge → Pin → ℕ
incoming [] p = 0
incoming (e ∷ es) p = (if pin_eq e.1 p then 1 else 0) + incoming es p

abbrev distinct? : List Edge → Bool
distinct? [] = true
distinct? (e ∷ es) = (incoming es e.1 == 0) && distinct? es

incoming-le : (es : List Edge) → distinct? es ≡ true → (p : Pin) → incoming es p ≤ 1
incoming-le [] h p = omega arith
incoming-le (e ∷ es) h p =
    let (a, b) = and_true (incoming es e.1 == 0) (distinct? es) h in
    let below = incoming-le es b p in
    elim (Bool-cases (pin_eq e.1 p)) [
      | inl same ↦
          let none_left : incoming es e.1 ≡ 0 = ground arith in
          rw same (omega (arith, none_left, ap (incoming es) (eq_of_pin_eq e.1 p same)))
      | inr other ↦ rw other (omega (arith, below))
    ]

abbrev pub HasOneSource : Reactor → Type 0
HasOneSource r = (p : Pin) → incoming (edges [] r) p ≤ 1

-- In the three programs and the 46 generated federates, at every level, at most one connection leads
-- into each port of each instance.
pub mains-HasOneSource : All HasOneSource all_mains
mains-HasOneSource =
    All-all HasOneSource (λ r. distinct? (edges [] r)) all_mains (λ r h. incoming-le (edges [] r) h)
      refl
