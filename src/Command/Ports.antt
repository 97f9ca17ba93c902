-- ===== src/Command/Ports.antt =====
-- The four ports that carry a vehicle command, and values for each of them: `M` gives the type of
-- the messages of a port.
use lf_autoware.Base.{◌≡◌, refl, sym, ap, Option, none, some, List, [], ◌∷◌, ◌++◌, append-nil}

-- The outputs of `vehicle_cmd_gate`.
pub data Port : Type 0 where
  control_cmd : Port
  gear_cmd : Port
  turn_indicators_cmd : Port
  hazard_lights_cmd : Port

-- A list of messages for each port.
pub record Log (M : Port → Type 0) : Type 0 where
  pub control : List (M control_cmd)
  pub gear : List (M gear_cmd)
  pub turn_indicators : List (M turn_indicators_cmd)
  pub hazard_lights : List (M hazard_lights_cmd)

-- At most one message for each port: what the ports hold at one tag.
pub record Outputs (M : Port → Type 0) : Type 0 where
  pub control : Option (M control_cmd)
  pub gear : Option (M gear_cmd)
  pub turn_indicators : Option (M turn_indicators_cmd)
  pub hazard_lights : Option (M hazard_lights_cmd)

module _ {A : Type 0} where
  abbrev pub to_list : Option A → List A
  to_list none = []
  to_list (some a) = a ∷ []

module _ (M : Port → Type 0) where
  abbrev pub history : (p : Port) → Log M → List (M p)
  history control_cmd l = l.control
  history gear_cmd l = l.gear
  history turn_indicators_cmd l = l.turn_indicators
  history hazard_lights_cmd l = l.hazard_lights

  abbrev pub output : (p : Port) → Outputs M → Option (M p)
  output control_cmd o = o.control
  output gear_cmd o = o.gear
  output turn_indicators_cmd o = o.turn_indicators
  output hazard_lights_cmd o = o.hazard_lights

  abbrev pub no_log : Log M
  no_log = record { control = []; gear = []; turn_indicators = []; hazard_lights = [] }

  abbrev pub absent : Outputs M
  absent = record { control = none; gear = none; turn_indicators = none; hazard_lights = none }

  -- One more message for a port.
  abbrev pub append : (p : Port) → M p → Log M → Log M
  append control_cmd m l = record l { control = l.control ++ m ∷ [] }
  append gear_cmd m l = record l { gear = l.gear ++ m ∷ [] }
  append turn_indicators_cmd m l = record l { turn_indicators = l.turn_indicators ++ m ∷ [] }
  append hazard_lights_cmd m l = record l { hazard_lights = l.hazard_lights ++ m ∷ [] }

  -- Every message of a tag.
  abbrev pub append_all : Outputs M → Log M → Log M
  append_all o l = record {
    control = l.control ++ to_list o.control;
    gear = l.gear ++ to_list o.gear;
    turn_indicators = l.turn_indicators ++ to_list o.turn_indicators;
    hazard_lights = l.hazard_lights ++ to_list o.hazard_lights;
  }

  abbrev pub clear : Port → Outputs M → Outputs M
  clear control_cmd o = record o { control = none }
  clear gear_cmd o = record o { gear = none }
  clear turn_indicators_cmd o = record o { turn_indicators = none }
  clear hazard_lights_cmd o = record o { hazard_lights = none }

  -- A message of port `q`, as seen at port `p`.
  abbrev pub single : (p q : Port) → M q → List (M p)
  single control_cmd control_cmd m = m ∷ []
  single gear_cmd gear_cmd m = m ∷ []
  single turn_indicators_cmd turn_indicators_cmd m = m ∷ []
  single hazard_lights_cmd hazard_lights_cmd m = m ∷ []
  single _ _ m = []

  pub history-append :
      (p q : Port) (m : M q) (l : Log M) → history p (append q m l) ≡ history p l ++ single p q m
  history-append control_cmd control_cmd m l = refl
  history-append gear_cmd gear_cmd m l = refl
  history-append turn_indicators_cmd turn_indicators_cmd m l = refl
  history-append hazard_lights_cmd hazard_lights_cmd m l = refl
  history-append p q m l = sym (append-nil (history p l))

  pub history-append_all :
      (p : Port) (o : Outputs M) (l : Log M)
      → history p (append_all o l) ≡ history p l ++ to_list (output p o)
  history-append_all control_cmd o l = refl
  history-append_all gear_cmd o l = refl
  history-append_all turn_indicators_cmd o l = refl
  history-append_all hazard_lights_cmd o l = refl

  -- Taking the message of one port splits off what every port held.
  pub output-clear :
      (p q : Port) (m : M q) (o : Outputs M)
      → output q o ≡ some m
      → to_list (output p o) ≡ single p q m ++ to_list (output p (clear q o))
  output-clear control_cmd control_cmd m o e = ap to_list e
  output-clear gear_cmd gear_cmd m o e = ap to_list e
  output-clear turn_indicators_cmd turn_indicators_cmd m o e = ap to_list e
  output-clear hazard_lights_cmd hazard_lights_cmd m o e = ap to_list e
  output-clear p q m o e = refl
