-- ===== src/Wiring/Drift.antt =====
-- The generated federates are those of an earlier AutowareFederated.lf: which instances they have.
use mathlib.Core.Path.{subst}
use text.Mathlib.Text.{◌==◌}
use text.Mathlib.TextEquality.{eq_iff}
use lf_autoware.Base.{
  ℕ, suc, ◌≡◌, refl, sym, String, ◌<>◌, Bool, true, false, ◌&&◌, List, [], ◌∷◌, map, arith,
  and_true, if◌then◌else◌, Bool-cases, inl, inr,
}
use lf_autoware.Base.{◌==◌ as is, ==_iff as is_iff}
use lf_autoware.Base.Sublists.{IsSublist, nil, skip, keep}
use lf_autoware.Federate.Preamble.{Preamble}
use lf_autoware.Federate.Table.{federation, federate_names}
use lf_autoware.Wiring.{Reactor, reactor, Instances, no_more, new}
use lf_autoware.Wiring.Programs.{autoware_federated}
use lf_autoware.Wiring.Network.{Federate}
use lf_autoware.Wiring.Generated.{generated}

-- An instance and its class.
abbrev pub Named : Type 0
Named = String × String

abbrev pub class_of : Reactor → String
class_of (reactor n ports is cs) = n

abbrev pub named : Instances → List Named
named no_more = []
named (new i r is) = (i, class_of r) ∷ named is

abbrev pub instances_of : Reactor → List Named
instances_of (reactor n ports is cs) = named is

-- The first instance of a generated main reactor is the one of the source program.
abbrev pub first_instance : Federate → Named
first_instance f = elim (instances_of f.main) [ [] ↦ ("", "") | i ∷ is ↦ i ]

abbrev sublist? : List Named → List Named → Bool
sublist? [] ys = true
sublist? (x ∷ xs) [] = false
sublist? (x ∷ xs) (y ∷ ys) =
    let found = sublist? xs ys in
    let later = sublist? (x ∷ xs) ys in if (x.0 == y.0) && (x.1 == y.1) then found else later

IsSublist-nil : (ys : List Named) → IsSublist [] ys
IsSublist-nil [] = nil
IsSublist-nil (y ∷ ys) = skip y (IsSublist-nil ys)

sublist?_sound : (xs ys : List Named) → sublist? xs ys ≡ true → IsSublist xs ys
sublist?_sound [] ys h = IsSublist-nil ys
sublist?_sound (x ∷ xs) [] h = cc
sublist?_sound (x ∷ xs) (y ∷ ys) h = elim (Bool-cases ((x.0 == y.0) && (x.1 == y.1))) [
  | inl same ↦
      let (a, b) = and_true (x.0 == y.0) (x.1 == y.1) same in
      let i : x.0 ≡ y.0 = (eq_iff x.0 y.0).0 a in
      let c : x.1 ≡ y.1 = (eq_iff x.1 y.1).0 b in
      let named : x ≡ y = λ j. (i j, c j) in
      subst (λ z. IsSublist (z ∷ xs) (y ∷ ys)) (sym named)
        (keep y (sublist?_sound xs ys (rw same at h)))
  | inr other ↦ skip y (sublist?_sound (x ∷ xs) ys (rw other at h))
]

-- The generated federates wrap instances of AutowareFederated.lf, each under its name there and of
-- its class there, in the order in which they stand there, each at most once.
pub generated-IsSublist : IsSublist (map first_instance generated) (instances_of autoware_federated)
generated-IsSublist =
    sublist?_sound (map first_instance generated) (instances_of autoware_federated) refl

-- What the files of the federate at a position say of its identity: the compile definition
-- FEDERATE_ID, the assignment in its preamble, and the name of its instance in the list of names.
pub record IsIdentified (i : ℕ) (f : Federate) (p : Preamble) (name : String) : Type 0 where
  pub compiled : f.federate_id ≡ i
  pub assigned : p.fed_id ≡ i
  pub listed : name ≡ "federate__" <> (first_instance f).0

-- Three lists agree from a position on.
abbrev pub AreIdentified : ℕ → List Federate → List Preamble → List String → Type 0
AreIdentified i [] [] [] = Unit
AreIdentified i (f ∷ fs) (p ∷ ps) (n ∷ ns) = IsIdentified i f p n × AreIdentified (suc i) fs ps ns
AreIdentified _ _ _ _ = ⊥

abbrev identified? : ℕ → List Federate → List Preamble → List String → Bool
identified? i [] [] [] = true
identified? i (f ∷ fs) (p ∷ ps) (n ∷ ns) =
    (is f.federate_id i && (is p.fed_id i && (n == "federate__" <> (first_instance f).0)))
    && identified? (suc i) fs ps ns
identified? _ _ _ _ = false

identified?_sound :
    (i : ℕ) (fs : List Federate) (ps : List Preamble) (ns : List String)
    → identified? i fs ps ns ≡ true
    → AreIdentified i fs ps ns
identified?_sound i [] [] [] h = tt
identified?_sound i (f ∷ fs) (p ∷ ps) (n ∷ ns) h =
    let (a, rest) = and_true _ (identified? (suc i) fs ps ns) h in
    let (x, b) = and_true (is f.federate_id i) _ a in
    let (y, z) = and_true (is p.fed_id i) _ b in
    (
      record {
        compiled = (is_iff f.federate_id i).0 x;
        assigned = (is_iff p.fed_id i).0 y;
        listed = (eq_iff n ("federate__" <> (first_instance f).0)).0 z;
      },
      identified?_sound (suc i) fs ps ns rest,
    )
identified?_sound i _ _ _ h = absurd (ground arith)

-- The 46 generated programs, the 46 preambles and the list of names agree: the federate at each
-- position has that position as its FEDERATE_ID and as the identity that its preamble sets, and the
-- name there is `federate__` followed by the name of the instance that it wraps.
pub generated-AreIdentified : AreIdentified 0 generated federation federate_names
generated-AreIdentified = identified?_sound 0 generated federation federate_names refl
