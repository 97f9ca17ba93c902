-- ===== src/Wiring/Typed.antt =====
-- Whether the connections of a reactor join ports that fit, and that an input has one source.
use text.Mathlib.Text.{◌==◌}
use text.Mathlib.TextEquality.{eq_iff}
use lf_autoware.Base.{
  ◌≡◌, refl, String, Bool, true, false, ◌&&◌, Option, none, some, List, [], ◌∷◌, ◌++◌, map,
  and_true, All-all, All, all, if◌then◌else◌,
}
use lf_autoware.Wiring.{
  Direction, input, output, PortDecl, End, Connection, Reactor, reactor, Instances, no_more, new,
}
use lf_autoware.Wiring.Programs.{programs}
use lf_autoware.Wiring.Network.{Federate}
use lf_autoware.Wiring.Generated.{generated}

abbrev pub find_port : List PortDecl → String → Option PortDecl
find_port [] name = none
find_port (p ∷ ps) name = let rest = find_port ps name in if p.name == name then some p else rest

abbrev pub ports_of : Reactor → List PortDecl
ports_of (reactor n ports is cs) = ports

abbrev pub ports_of_instance : Instances → String → List PortDecl
ports_of_instance no_more name = []
ports_of_instance (new i r is) name =
    let rest = ports_of_instance is name in if i == name then ports_of r else rest

-- The declaration of the port that an end of a connection names.
abbrev pub declared : List PortDecl → Instances → End → Option PortDecl
declared ports is e = elim e.instance_name [
  | none ↦ find_port ports e.port
  | some i ↦ find_port (ports_of_instance is i) e.port
]

-- A message enters the connection from an input of the reactor or an output of an instance, and
-- leaves it to an output of the reactor or an input of an instance.
abbrev pub source_direction : End → Direction
source_direction e = elim e.instance_name [ none ↦ input | some i ↦ output ]

abbrev pub target_direction : End → Direction
target_direction e = elim e.instance_name [ none ↦ output | some i ↦ input ]

pub record IsFitting (ports : List PortDecl) (is : Instances) (c : Connection) : Type 0 where
  pub source : PortDecl
  pub target : PortDecl
  pub source_declared : declared ports is c.source ≡ some source
  pub target_declared : declared ports is c.target ≡ some target
  pub source_direction : source.direction ≡ source_direction c.source
  pub target_direction : target.direction ≡ target_direction c.target
  pub types : source.type ≡ target.type

-- Every connection of the reactor and of its instances fits.
abbrev mutual
  pub IsTyped : Reactor → Type 0
  IsTyped (reactor n ports is cs) = All (IsFitting ports is) cs × AreTyped is

  pub AreTyped : Instances → Type 0
  AreTyped no_more = Unit
  AreTyped (new i r is) = IsTyped r × AreTyped is

abbrev same_direction : Direction → Direction → Bool
same_direction input input = true
same_direction output output = true
same_direction _ _ = false

abbrev fits? : Option PortDecl → Option PortDecl → Connection → Bool
fits? (some s) (some t) c =
    (s.type == t.type)
    && (same_direction s.direction (source_direction c.source)
        && same_direction t.direction (target_direction c.target))
fits? _ _ c = false

abbrev mutual
  typed? : Reactor → Bool
  typed? (reactor n ports is cs) =
      all (λ (c : Connection). fits? (declared ports is c.source) (declared ports is c.target) c) cs
      && all_typed? is

  all_typed? : Instances → Bool
  all_typed? no_more = true
  all_typed? (new i r is) = typed? r && all_typed? is

same_direction_sound : (d e : Direction) → same_direction d e ≡ true → d ≡ e
same_direction_sound input input h = refl
same_direction_sound output output h = refl
same_direction_sound input output h = cc
same_direction_sound output input h = cc

fits?_sound :
    (ports : List PortDecl) (is : Instances) (c : Connection)
    → fits? (declared ports is c.source) (declared ports is c.target) c ≡ true
    → IsFitting ports is c
fits?_sound ports is c h = go (declared ports is c.source) (declared ports is c.target) refl refl h
  where
    go :
        (s t : Option PortDecl)
        → declared ports is c.source ≡ s
        → declared ports is c.target ≡ t
        → fits? s t c ≡ true
        → IsFitting ports is c
    go none t d e h = cc
    go (some s) none d e h = cc
    go (some s) (some t) d e h =
        let (a, b) = and_true (s.type == t.type) _ h in
        let (x, y) = and_true (same_direction s.direction (source_direction c.source)) _ b in
        record {
          source = s;
          target = t;
          source_declared = d;
          target_declared = e;
          source_direction = same_direction_sound s.direction (source_direction c.source) x;
          target_direction = same_direction_sound t.direction (target_direction c.target) y;
          types = (eq_iff s.type t.type).0 a;
        }

mutual
  typed?_sound : (r : Reactor) → typed? r ≡ true → IsTyped r
  typed?_sound (reactor n ports is cs) h =
      let (a, b) = and_true _ (all_typed? is) h in
      (All-all (IsFitting ports is) _ cs (fits?_sound ports is) a, all_typed?_sound is b)

  all_typed?_sound : (is : Instances) → all_typed? is ≡ true → AreTyped is
  all_typed?_sound no_more h = tt
  all_typed?_sound (new i r is) h =
      let (a, b) = and_true (typed? r) (all_typed? is) h in
      (typed?_sound r a, all_typed?_sound is b)

-- The source programs, and the main reactors of the generated federates.
abbrev pub all_mains : List Reactor
all_mains = programs ++ map (λ (f : Federate). f.main) generated

-- In the three programs and the 46 generated federates, every connection, at every level, joins two
-- declared ports of the same type, from an output of an instance or an input of the reactor itself
-- to an input of an instance or an output of the reactor itself.
pub mains-IsTyped : All IsTyped all_mains
mains-IsTyped = All-all IsTyped typed? all_mains typed?_sound refl
