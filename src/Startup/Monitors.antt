-- ===== src/Startup/Monitors.antt =====
-- The startup reaction of lf-src/system_monitor/system_monitor_main.lf, which makes eight nodes, each
-- with a parameter file of its own.
use mathlib.Core.Option
use lf_autoware.Base.{
  ◌≡◌, refl, ap, ◌∙◌, Option, none, some, List, [], ◌∷◌, ◌++◌, map, Text, codes, Option-cases, inl,
  inr,
}
use lf_autoware.Config.Yaml.{Options}
use lf_autoware.Config.Process.{Process}
use lf_autoware.Config.Options.{
  NodeOptions, all_named, load, get_node_options_from_yaml, get_lf_autoware_home,
}
use lf_autoware.Config.Options.Yamls.{IsUnique, last_named-eq-all_named}
use lf_autoware.Startup.{path, global_name}
use lf_autoware.Config.Options.Plan.{Loader}
use lf_autoware.Startup.Expected.{loader, not_rewritten}
use lf_autoware.Startup.Paths.Further.{
  system_monitor_cpu_param, system_monitor_mem_param, system_monitor_net_param,
  system_monitor_ntp_param, system_monitor_process_param, system_monitor_hdd_param,
  system_monitor_voltage_param, system_monitor_gpu_param,
}

-- The classes of the nodes, in the order in which they are made.
pub data Monitor : Type 0 where
  cpu_monitor : Monitor  -- CPUMonitorBase
  mem_monitor : Monitor
  net_monitor : Monitor
  ntp_monitor : Monitor
  process_monitor : Monitor
  hdd_monitor : Monitor
  voltage_monitor : Monitor
  gpu_monitor : Monitor

-- Each node with the constant that is given to create_opts for it.
abbrev pub monitor_params : List (Monitor × Text)
monitor_params =
    (cpu_monitor, system_monitor_cpu_param)
    ∷ (mem_monitor, system_monitor_mem_param)
    ∷ (net_monitor, system_monitor_net_param)
    ∷ (ntp_monitor, system_monitor_ntp_param)
    ∷ (process_monitor, system_monitor_process_param)
    ∷ (hdd_monitor, system_monitor_hdd_param)
    ∷ (voltage_monitor, system_monitor_voltage_param)
    ∷ (gpu_monitor, system_monitor_gpu_param)
    ∷ []

abbrev config_dir : Text
config_dir = codes "/src/launcher/autoware_launch/autoware_launch/config/system/system_monitor/"

-- The file of each node, under the home directory.
abbrev pub monitor_file : Text → Monitor → Text
monitor_file home cpu_monitor = home ++ (config_dir ++ codes "cpu_monitor.param.yaml")
monitor_file home mem_monitor = home ++ (config_dir ++ codes "mem_monitor.param.yaml")
monitor_file home net_monitor = home ++ (config_dir ++ codes "net_monitor.param.yaml")
monitor_file home ntp_monitor = home ++ (config_dir ++ codes "ntp_monitor.param.yaml")
monitor_file home process_monitor = home ++ (config_dir ++ codes "process_monitor.param.yaml")
monitor_file home hdd_monitor = home ++ (config_dir ++ codes "hdd_monitor.param.yaml")
monitor_file home voltage_monitor = home ++ (config_dir ++ codes "voltage_monitor.param.yaml")
monitor_file home gpu_monitor = home ++ (config_dir ++ codes "gpu_monitor.param.yaml")

abbrev pub all_monitors : List Monitor
all_monitors =
    cpu_monitor ∷ mem_monitor ∷ net_monitor ∷ ntp_monitor ∷ process_monitor ∷ hdd_monitor
    ∷ voltage_monitor ∷ gpu_monitor ∷ []

module _ {D : Type 0} where
  -- The options of a node with one file, if that parses.
  abbrev pub options_from : Loader D → Text → Option (NodeOptions D)
  options_from ld file = elim (ld file) [
    | none ↦ none
    | some os ↦ some (record {
      overrides = all_named global_name os;
      arguments = codes "--ros-args" ∷ codes "--params-file" ∷ file ∷ [];
    })
  ]

  -- The nodes with the options from their files; none if one file does not parse.
  unfoldable pub each_from :
      Loader D → List (Monitor × Text) → Option (List (Monitor × NodeOptions D))
  each_from ld [] = some []
  each_from ld ((m, file) ∷ ms) = elim (options_from ld file) [
    | none ↦ none
    | some o ↦ Option.map (λ os. (m, o) ∷ os) (each_from ld ms)
  ]

  abbrev pub expected_monitors : Loader D → Option Text → Option (List (Monitor × NodeOptions D))
  expected_monitors ld none = none
  expected_monitors ld (some home) = each_from ld (map (λ m. (m, monitor_file home m)) all_monitors)

module _ {D : Type 0} (parse_yaml : Text → Option (Options D)) (show_double : D → Text) where
  -- The lambda of the reaction.
  abbrev pub create_opts : Text → Text → Process → Option (NodeOptions D × Process)
  create_opts home param w =
      get_node_options_from_yaml parse_yaml show_double (path home param) global_name w

  -- The nodes one after the other; an exit of the process ends them all.
  unfoldable pub create_each :
      Text → List (Monitor × Text) → Process → Option (List (Monitor × NodeOptions D) × Process)
  create_each home [] w = some ([], w)
  create_each home ((m, p) ∷ ps) w = elim (create_opts home p w) [
    | none ↦ none
    | some (o, w1) ↦ Option.map (λ (os, w2). ((m, o) ∷ os, w2)) (create_each home ps w1)
  ]

  -- The nodes with their options; `none` is an exit of the process.
  unfoldable pub system_monitor_startup :
      Process → Option (List (Monitor × NodeOptions D) × Process)
  system_monitor_startup w = elim (get_lf_autoware_home w) [
    | none ↦ none
    | some home ↦ create_each home monitor_params w
  ]

  create_opts_lem :
      (home param : Text) (w : Process)
      → ((file : Text) (os : Options D)
          → load parse_yaml show_double file w ≡ some os
          → IsUnique os)
      → create_opts home param w
        ≡ Option.map
            (λ o. (o, w))
            (options_from (loader parse_yaml show_double w) (path home param))
  unfolding get_node_options_from_yaml
  create_opts_lem home param w u =
      elim (Option-cases (load parse_yaml show_double (path home param) w)) [
        | inl e ↦ rw (e, get_node_options_from_yaml, options_from) refl
        | inr (os, e) ↦
            rw (e, get_node_options_from_yaml, options_from)
              (rw (not_rewritten parse_yaml show_double (path home param) w)
                (rw (last_named-eq-all_named global_name os (u (path home param) os e)) refl))
      ]

  and_each :
      (home : Text) (m : Monitor) (ps : List (Monitor × Text)) (w : Process)
      (o : Option (NodeOptions D)) (os : Option (List (Monitor × NodeOptions D)))
      → create_each home ps w ≡ Option.map (λ l. (l, w)) os
      → elim (Option.map {B = NodeOptions D × Process} (λ n. (n, w)) o) [
        | none ↦ none
        | some (n, w1) ↦
            Option.map {B = List (Monitor × NodeOptions D) × Process}
              (λ (l, w2). ((m, n) ∷ l, w2))
              (create_each home ps w1)
      ]
        ≡ Option.map
            (λ l. (l, w))
            (elim o [ none ↦ none | some n ↦ Option.map (λ l. (m, n) ∷ l) os ])
  and_each home m ps w none os e = refl
  and_each home m ps w (some n) none e = rw e refl
  and_each home m ps w (some n) (some l) e = rw e refl

  create_each_lem :
      (home : Text) (params : List (Monitor × Text)) (w : Process)
      → ((file : Text) (os : Options D)
          → load parse_yaml show_double file w ≡ some os
          → IsUnique os)
      → create_each home params w
        ≡ Option.map
            (λ os. (os, w))
            (each_from (loader parse_yaml show_double w) (map (λ (m, p). (m, path home p)) params))
  unfolding create_each each_from
  create_each_lem home [] w u = refl
  create_each_lem home ((m, p) ∷ ps) w u =
      ap
        (λ (r : Option (NodeOptions D × Process)). elim r [
          | none ↦ none
          | some (o, w1) ↦ Option.map (λ (os, w2). ((m, o) ∷ os, w2)) (create_each home ps w1)
        ])
        (create_opts_lem home p w u)
      ∙ and_each home m ps w (options_from (loader parse_yaml show_double w) (path home p))
          (each_from (loader parse_yaml show_double w) (map (λ (m, p). (m, path home p)) ps))
          (create_each_lem home ps w u)

  -- If a file that parses has each node name once, the startup reaction of system_monitor leaves the
  -- process as it is and makes its eight nodes in order, those of the processor, the memory, the
  -- network, the clock, the processes, the disks, the voltage and the graphics processor. Each gets
  -- the global parameters of the file of its own name in the directory of system_monitor, and that
  -- file as argument. The process exits without the home directory, and if one of the eight files
  -- does not parse.
  pub system_monitor-eq-expected :
      (w : Process)
      → ((file : Text) (os : Options D)
          → load parse_yaml show_double file w ≡ some os
          → IsUnique os)
      → system_monitor_startup w
        ≡ Option.map
            (λ os. (os, w))
            (expected_monitors
              (λ file. load parse_yaml show_double file w)
              (w.env (codes "LF_AUTOWARE_HOME")))
  unfolding system_monitor_startup get_lf_autoware_home
  system_monitor-eq-expected w u = elim (Option-cases (w.env (codes "LF_AUTOWARE_HOME"))) [
    | inl e ↦ rw (e, system_monitor_startup) refl
    | inr (home, e) ↦ rw (e, system_monitor_startup) (create_each_lem home monitor_params w u)
  ]
