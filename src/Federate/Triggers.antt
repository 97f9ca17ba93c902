-- ===== src/Federate/Triggers.antt =====
-- `initialize_triggers_for_federate` and `staa_initialization` of the generated preambles, over
-- the global tables that they fill.
pub mod Tables
pub mod Checked
pub mod Bounds
use lf_autoware.Base.{
  ℕ, suc, String, Option, none, some, List, [], ◌∷◌, ◌++◌, length, set, get_elem?, replicate,
}
use lf_autoware.Federate.Preamble.{NetworkAction, StaaInit, Preamble}

-- An `interval_t`: NEVER, or a number of nanoseconds.
pub data Interval : Type 0 where
  never : Interval
  nsec : ℕ → Interval

-- A pointer to an action is the self struct whose `_lf_networkMessage` it points to, or NULL.
abbrev pub ActionPtr : Type 0
ActionPtr = Option String

-- `staa_t`
pub record Staa : Type 0 where
  pub staa : ℕ
  pub num_actions : ℕ
  pub actions : List ActionPtr

pub record Triggers : Type 0 where
  pub action_delay_table : List Interval
  pub action_table : List ActionPtr
  -- the writes of `source_id`, in order, each with the self struct written to
  pub source_ids : List (String × ℕ)
  pub staa_lst : List (Option Staa)

-- The globals of the preamble before any code runs, as long as they are declared: C sets them to zero.
unfoldable pub globals : Preamble → Triggers
globals p = record {
  action_delay_table = replicate p.action_delay_table_length (nsec 0);
  action_table = replicate p.action_table_length none;
  source_ids = [];
  staa_lst = replicate p.staa_lst_length none;
}

-- The three assignments for action `i`.
unfoldable pub enter_action : ℕ → NetworkAction → Triggers → Triggers
enter_action i a t = record t {
  action_delay_table = set t.action_delay_table i never;
  action_table = set t.action_table i (some a.self);
  source_ids = t.source_ids ++ (a.self, a.source_id) ∷ [];
}

unfoldable pub enter_actions : ℕ → List NetworkAction → Triggers → Triggers
unfolding enter_action
enter_actions i [] t = t
enter_actions i (a ∷ as') t = enter_actions (suc i) as' (enter_action i a t)

-- `_lf_action_table[k]`
abbrev pub read : List ActionPtr → ℕ → ActionPtr
read table k = elim (get_elem? table k) [ none ↦ none | some a ↦ a ]

-- staa_lst[n]->actions[i] = _lf_action_table[k], for each `k` of the list.
unfoldable pub copy_actions : List ActionPtr → ℕ → List ℕ → List ActionPtr → List ActionPtr
copy_actions table i [] out = out
copy_actions table i (k ∷ ks) out = copy_actions table (suc i) ks (set out i (read table k))

-- The mallocs and assignments of one entry of `staa_lst`.
unfoldable pub staa_entry : List ActionPtr → StaaInit → Staa
unfolding copy_actions
staa_entry table s = record {
  staa = s.staa;
  num_actions = s.num_actions;
  actions = copy_actions table 0 s.action_indices (replicate s.allocated none);
}

unfoldable pub staa_entries : ℕ → List StaaInit → Triggers → Triggers
unfolding staa_entry
staa_entries n [] t = t
staa_entries n (s ∷ ss) t =
    staa_entries (suc n) ss
      (record t { staa_lst = set t.staa_lst n (some (staa_entry t.action_table s)) })

unfoldable pub staa_initialization : Preamble → Triggers → Triggers
unfolding staa_entries
staa_initialization p t = staa_entries 0 p.staa_lst t

unfoldable pub initialize_triggers_for_federate : Preamble → Triggers → Triggers
unfolding enter_actions staa_initialization
initialize_triggers_for_federate p t = staa_initialization p (enter_actions 0 p.network_actions t)
