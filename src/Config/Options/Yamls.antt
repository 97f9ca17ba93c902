-- ===== src/Config/Options/Yamls.antt =====
-- The two ways to the options of a node: from several files, and from one.
use mathlib.Core.Path.{subst}
use lf_autoware.Base.{
  ◌≡◌, refl, sym, ◌∙◌, ap, ◌⊎◌, inl, inr, Option, none, some, List, [], ◌∷◌, ◌++◌, Text, codes,
  text_eq, eq_of_text_eq, All, Bool-cases, Option-cases, arith, append-nil,
}
use lf_autoware.Config.Yaml.{Parameter, Options}
use lf_autoware.Config.Process.{Process}
use lf_autoware.Config.Options.{
  load, last_named, all_named, add_yaml, add_yamls, get_node_options_from_yaml,
  get_node_options_from_yamls,
}
use lf_autoware.Config.Options.Frame.{first_named}
use lf_autoware.Config.Options.Plan.{IsForeign, IsPlanned}
use lf_autoware.Config.Options.Planned.{Agrees, IsPlanned-add_yamls}

-- Each node name stands once, as in the std::unordered_map of rclcpp::parameter_map_from.
abbrev pub IsUnique : {D : Type 0} → Options D → Type 0
IsUnique [] = Unit
IsUnique ((name, ps) ∷ os) = (first_named name os ≡ none) × IsUnique os

named_none :
    {D : Type 0} (root : Text) (os : Options D) (acc : List (Parameter D))
    → first_named root os ≡ none
    → (last_named root os acc ≡ acc) × (all_named root os ≡ [])
unfolding first_named last_named all_named
named_none root [] acc h = (refl, refl)
named_none root ((name, ps) ∷ os) acc h = elim (Bool-cases (text_eq name root)) [
  | inl e ↦ absurd (ground arith)
  | inr e ↦ rw e (named_none root os acc (ground arith))
]

pub last_named-eq-all_named :
    {D : Type 0} (root : Text) (os : Options D)
    → IsUnique os
    → last_named root os [] ≡ all_named root os
unfolding last_named all_named
last_named-eq-all_named root [] h = refl
last_named-eq-all_named root ((name, ps) ∷ os) h = elim (Bool-cases (text_eq name root)) [
  | inl e ↦
      let gone : first_named root os ≡ none =
        subst (λ n. first_named n os ≡ none) (eq_of_text_eq name root e) h.0 in
      let (last, all) = named_none root os ps gone in
      rw e (last ∙ sym (append-nil ps) ∙ ap (λ l. ps ++ l) (sym all))
  | inr e ↦ rw e (last_named-eq-all_named root os h.1)
]

module _ {D : Type 0} (parse_yaml : Text → Option (Options D)) (show_double : D → Text) where
  Agrees-load :
      (w : Process) (cs : List (Text × Text))
      → All (Agrees parse_yaml show_double (λ path. load parse_yaml show_double path w) w) cs
  Agrees-load w [] = tt
  Agrees-load w (c ∷ cs) = (refl, Agrees-load w cs)

  -- Let no configured path be a name that the process makes up for its own files. Then the node
  -- gets, in the order of the configuration and as the files are at the start: the parameters under
  -- the given names of every file that parses, and one parameter file for each, which is the file
  -- itself or one that the process writes. At the end every file that was written still holds what
  -- was written for its configuration, if it can be written, and no other file has changed.
  pub get_node_options_from_yamls-IsPlanned :
      (cs : List (Text × Text)) (w : Process)
      → All (IsForeign w.pid) cs
      → IsPlanned parse_yaml show_double
          (λ path. load parse_yaml show_double path w)
          w
          cs
          (record { overrides = []; arguments = codes "--ros-args" ∷ [] })
          (get_node_options_from_yamls parse_yaml show_double cs w)
  unfolding get_node_options_from_yamls
  get_node_options_from_yamls-IsPlanned cs w h =
      IsPlanned-add_yamls parse_yaml show_double (λ path. load parse_yaml show_double path w) cs
        (record { overrides = []; arguments = codes "--ros-args" ∷ [] }) w h (Agrees-load w cs)

  -- The function for one file exits if the file does not parse, where the one for several files goes
  -- on without it. If it parses, both give the same options and leave the process in the same state.
  -- The condition is that a file that parses has each node name once.
  pub get_node_options_from_yaml_one :
      (path root : Text) (w : Process)
      → ((os : Options D) → load parse_yaml show_double path w ≡ some os → IsUnique os)
      → ((load parse_yaml show_double path w ≡ none)
          × (get_node_options_from_yaml parse_yaml show_double path root w ≡ none)
          × (get_node_options_from_yamls parse_yaml show_double ((path, root) ∷ []) w
              ≡ (record { overrides = []; arguments = codes "--ros-args" ∷ [] }, w)))
        ⊎ ((os : Options D) × (load parse_yaml show_double path w ≡ some os)
            × (get_node_options_from_yaml parse_yaml show_double path root w
                ≡ some (get_node_options_from_yamls parse_yaml show_double ((path, root) ∷ []) w)))
  unfolding get_node_options_from_yaml get_node_options_from_yamls add_yamls add_yaml
  get_node_options_from_yaml_one path root w u =
      elim (Option-cases (load parse_yaml show_double path w)) [
        | inl e ↦ inl (e, rw (e, get_node_options_from_yaml) refl, rw (e, add_yaml) refl)
        | inr (os, e) ↦ inr (
          os,
          e,
          rw (e, get_node_options_from_yaml, add_yaml)
              (rw (last_named-eq-all_named root os (u os e)) refl),
        )
      ]
