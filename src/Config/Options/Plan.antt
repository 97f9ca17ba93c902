-- ===== src/Config/Options/Plan.antt =====
-- What `get_node_options_from_yamls` should give, read off the files as they are at its start.
use lf_autoware.Base.{
  ℕ, ◌+◌, ◌≡◌, ◌≢◌, false, ◌⊎◌, Option, none, some, List, [], ◌∷◌, ◌++◌, Text, codes, All,
}
use lf_autoware.Config.Yaml.{Parameter, Options, global_yaml}
use lf_autoware.Config.Process.{Process, params_path}
use lf_autoware.Config.Options.{NodeOptions, all_named}
use lf_autoware.Config.Options.Frame.{Frame, target}

-- A file that the node is given, and its content if the process writes it.
abbrev pub Source : Type 0
Source = Text × Option Text

-- "--params-file" and the file, for each.
abbrev pub flags : List Source → List Text
flags [] = []
flags ((f, c) ∷ es) = codes "--params-file" ∷ f ∷ flags es

-- The file holds what was planned for it, or cannot be written at all.
abbrev pub Holds : Process → Source → Type 0
Holds w (f, none) = Unit
Holds w (f, some content) = (w.can_write f ≡ false) ⊎ (w.file f ≡ some content)

-- The options of each file that parses.
abbrev pub Loader : Type 0 → Type 0
Loader D = Text → Option (Options D)

-- The parameters of all files in order.
unfoldable pub wanted : {D : Type 0} → Loader D → List (Text × Text) → List (Parameter D)
wanted ld [] = []
wanted ld ((path, root) ∷ cs) = elim (ld path) [
  | none ↦ wanted ld cs
  | some os ↦ all_named root os ++ wanted ld cs
]

-- No configured path is one of the names that the process makes up for its own files.
abbrev pub IsForeign : ℕ → Text × Text → Type 0
IsForeign pid c = (n : ℕ) → c.0 ≢ params_path pid n

module _ {D : Type 0} (parse_yaml : Text → Option (Options D)) (show_double : D → Text) where
  abbrev pub source : Text → ℕ → ℕ → Option (List (Parameter D)) → Source
  source path pid n none = (path, none)
  source path pid n (some ps) = (params_path pid n, some (global_yaml show_double ps))

  abbrev pub uses : Option (List (Parameter D)) → ℕ
  uses none = 0
  uses (some ps) = 1

  -- The files in order, where `n` counters are used before.
  unfoldable pub plan : Loader D → ℕ → ℕ → List (Text × Text) → List Source
  plan ld pid n [] = []
  plan ld pid n ((path, root) ∷ cs) = elim (ld path) [
    | none ↦ plan ld pid n cs
    | some os ↦ source path pid n (target root os) ∷ plan ld pid (n + uses (target root os)) cs
  ]

  -- What a run from a state with options `o` gives.
  pub record IsPlanned (ld : Loader D) (w : Process) (cs : List (Text × Text)) (o : NodeOptions D)
      (r : NodeOptions D × Process) : Type 0 where
    pub overrides : r.0.overrides ≡ o.overrides ++ wanted ld cs
    pub arguments : r.0.arguments ≡ o.arguments ++ flags (plan ld w.pid w.params_counter cs)
    pub holds : All (Holds r.1) (plan ld w.pid w.params_counter cs)
    pub frame : Frame w r.1
