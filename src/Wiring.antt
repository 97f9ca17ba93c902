-- ===== src/Wiring.antt =====
-- The reactors of the .lf files as data: ports, instances and connections, and where a message that
-- leaves a port ends. Reactions and timers are no part of it.
pub mod Reach
pub mod Pins
pub mod Typed
pub mod Sources
pub mod Ports
pub mod Leaves
pub mod Packages
pub mod Programs
pub mod Drift
pub mod Network
pub mod Communicating
pub mod Generated
pub mod Compiled
pub mod Refinement
pub mod Commands
use text.Mathlib.Text.{◌==◌}
use lf_autoware.Base.{
  ℕ, zero, suc, String, Bool, true, false, ◌&&◌, Option, none, some, List, [], ◌∷◌, ◌++◌, map,
  if◌then◌else◌,
}

pub data Direction : Type 0 where
  input : Direction
  output : Direction

-- `input name:type;` and `output name:type;`, with the type as it is written.
pub record PortDecl : Type 0 where
  pub direction : Direction
  pub name : String
  pub type : String

-- One side of a connection: `port`, of the reactor itself, or `instance.port`.
pub record End : Type 0 where
  pub instance_name : Option String
  pub port : String

-- `source -> target;`, or `source ~> target serializer "…";`
pub record Connection : Type 0 where
  pub source : End
  pub target : End
  pub physical : Bool
  pub serializer : Option String

-- A reactor class, with the class of each instance that it creates.
mutual
  pub data Reactor : Type 0 where
    reactor : String → List PortDecl → Instances → List Connection → Reactor

  pub data Instances : Type 0 where
    no_more : Instances
    new : String → Reactor → Instances → Instances

-- The instances of a reactor, in order.
abbrev pub create : List (String × Reactor) → Instances
create [] = no_more
create (i ∷ is) = new i.0 i.1 (create is)

-- A port of an instance, which is named by the instances that lead to it.
pub record Pin : Type 0 where
  pub path : List String
  pub port : String

abbrev pub path_eq : List String → List String → Bool
path_eq [] [] = true
path_eq (x ∷ xs) (y ∷ ys) = (x == y) && path_eq xs ys
path_eq _ _ = false

abbrev pub pin_eq : Pin → Pin → Bool
pin_eq p q = (p.port == q.port) && path_eq p.path q.path

-- A connection between two pins.
abbrev pub Edge : Type 0
Edge = Pin × Pin

abbrev pub pin : List String → End → Pin
pin path e = elim e.instance_name [
  | none ↦ record { path = path; port = e.port }
  | some i ↦ record { path = path ++ i ∷ []; port = e.port }
]

-- All connections inside a reactor.
abbrev mutual
  pub edges : List String → Reactor → List Edge
  edges path (reactor n ports is cs) =
      map (λ (c : Connection). (pin path c.source, pin path c.target)) cs ++ instance_edges path is

  pub instance_edges : List String → Instances → List Edge
  instance_edges path no_more = []
  instance_edges path (new i r is) = edges (path ++ i ∷ []) r ++ instance_edges path is

-- The pins that a pin is connected to.
abbrev pub targets : List Edge → Pin → List Pin
targets [] p = []
targets (e ∷ es) p = let rest = targets es p in if pin_eq e.0 p then e.1 ∷ rest else rest

abbrev pub both : Option (List Pin) → Option (List Pin) → Option (List Pin)
both (some xs) (some ys) = some (xs ++ ys)
both _ _ = none

abbrev pub gather : (Pin → Option (List Pin)) → List Pin → Option (List Pin)
gather f [] = some []
gather f (q ∷ qs) = both (f q) (gather f qs)

abbrev pub from_targets : (Pin → Option (List Pin)) → Pin → List Pin → Option (List Pin)
from_targets f p [] = some (p ∷ [])
from_targets f p (q ∷ qs) = gather f (q ∷ qs)

-- Where a message that leaves a pin ends, through fewer connections than `rounds`.
unfoldable pub follow : ℕ → List Edge → Pin → Option (List Pin)
follow zero es p = none
follow (suc rounds) es p = from_targets (follow rounds es) p (targets es p)
