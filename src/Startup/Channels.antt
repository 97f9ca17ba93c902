-- ===== src/Startup/Channels.antt =====
-- The detection channels that the startup reaction of multi_object_tracker sets
-- (lf-src/multi_object_tracker/multi_object_tracker_main.lf).
use lf_autoware.Base.{
  ℕ, zero, suc, ◌+◌, ◌<◌, ◌/◌, ◌%◌, ◌≡◌, refl, ◌∙◌, Option, some, List, [], ◌∷◌, ◌++◌, Text, codes,
  text_eq, if◌then◌else◌, arith, to_string,
}
use lf_autoware.Config.Yaml.{Value, text, Parameter, Options}
use lf_autoware.Config.Process.{Process}
use lf_autoware.Config.Options.{load}
use lf_autoware.Config.Options.Yamls.{IsUnique}
use lf_autoware.Startup.{path}
use lf_autoware.Startup.Expected.{loader, options_of}
use lf_autoware.Startup.Derived.{multi_object_tracker, startup_with, startup_with-eq-derived}
use lf_autoware.Startup.Paths.Further.{
  multi_object_tracker_param, multi_object_tracker_data_association_param,
  multi_object_tracker_input_channels_param,
}

abbrev pub tracker_files : Text → List Text
tracker_files home =
    path home multi_object_tracker_param
    ∷ path home multi_object_tracker_data_association_param
    ∷ path home multi_object_tracker_input_channels_param
    ∷ []

-- The number of a channel in two digits.
abbrev pub channel_parameter : ℕ → Text → Text
channel_parameter i field =
    codes "input/detection" ++ ((48 + i / 10) ∷ (48 + i % 10) ∷ (codes "/" ++ field))

-- What the channels are set to: the first is the lidar detector, the others are off.
abbrev pub channel_source : ℕ → Text
channel_source (suc zero) = codes "lidar_centerpoint"
channel_source _ = codes "none"

abbrev pub channel_topic : ℕ → Text
channel_topic (suc zero) = codes "/perception/object_recognition/detection/centerpoint/objects"
channel_topic _ = codes "none"

-- A proof for each number below a bound.
abbrev Below : (ℕ → Type 0) → ℕ → Type 0
Below P zero = Unit
Below P (suc k) = P 0 × Below (λ n. P (suc n)) k

below : (P : ℕ → Type 0) (k n : ℕ) → n < k → Below P k → P n
below P zero n h ps = absurd (omega arith)
below P (suc k) zero h (p, ps) = p
below P (suc k) (suc n) h (p, ps) = below (λ m. P (suc m)) k n (omega arith) ps

module _ {D : Type 0} where
  -- The values that are given to a parameter.
  unfoldable pub values_of : Text → List (Parameter D) → List (Value D)
  values_of name [] = []
  values_of name (p ∷ ps) =
      let rest = values_of name ps in if text_eq name p.name then p.value ∷ rest else rest

  -- Both parameters of channel `i` are given, once.
  abbrev pub IsConfigured : List (Parameter D) → ℕ → Type 0
  IsConfigured extra i =
      (values_of (channel_parameter i (codes "channel")) extra ≡ text (channel_source i) ∷ [])
      × (values_of (channel_parameter i (codes "objects")) extra ≡ text (channel_topic i) ∷ [])

  configured :
      (home : Text) (w : Process)
      → Below (λ n. IsConfigured (multi_object_tracker home w).extra (suc n)) 12
  unfolding values_of text_eq to_string
  configured home w = (
    (refl, refl),
    (
      (refl, refl),
      (
        (refl, refl),
        (
          (refl, refl),
          (
            (refl, refl),
            (
              (refl, refl),
              (
                (refl, refl),
                ((refl, refl), ((refl, refl), ((refl, refl), ((refl, refl), ((refl, refl), tt))))),
              ),
            ),
          ),
        ),
      ),
    ),
  )

module _ {D : Type 0} (parse_yaml : Text → Option (Options D)) (show_double : D → Text) where
  -- With the home directory set, and if a file that parses has each node name once, the node of
  -- multi_object_tracker gets the global parameters of those of its three files that parse, and
  -- behind them what the reaction adds. That sets both parameters of each channel `n + 1` from 1 to 12,
  -- under its number in two digits and once: the first channel is the lidar detector with its topic,
  -- and the others are "none".
  pub multi_object_tracker_startup_lem :
      (home : Text) (w : Process) (n : ℕ)
      → w.env (codes "LF_AUTOWARE_HOME") ≡ some home
      → ((file : Text) (os : Options D)
          → load parse_yaml show_double file w ≡ some os
          → IsUnique os)
      → n < 12
      → (startup_with parse_yaml show_double multi_object_tracker w
          ≡ some (
            options_of
                (loader parse_yaml show_double w)
                (tracker_files home)
                (multi_object_tracker home w).extra,
            w,
          ))
        × IsConfigured (multi_object_tracker {D = D} home w).extra (suc n)
  multi_object_tracker_startup_lem home w n e u h = (
    startup_with-eq-derived parse_yaml show_double multi_object_tracker w u ∙ rw e refl,
    below (λ m. IsConfigured {D = D} (multi_object_tracker home w).extra (suc m)) 12 n h
        (configured home w),
  )
