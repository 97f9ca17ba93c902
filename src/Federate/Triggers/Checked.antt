-- ===== src/Federate/Triggers/Checked.antt =====
-- `initialize_triggers_for_federate` with every access to an array checked: `none` stands for an
-- index past the end, where C has no behaviour.
use lf_autoware.Base.{
  ℕ, suc, Option, none, some, List, [], ◌∷◌, ◌++◌, length, set, get_elem?, replicate, ltb,
  if◌then◌else◌,
}
use lf_autoware.Federate.Preamble.{NetworkAction, StaaInit, Preamble}
use lf_autoware.Federate.Triggers.{never, ActionPtr, Staa, Triggers}

infixl 5 ◌>>=◌
abbrev pub ◌>>=◌ : {A B : Type 0} → Option A → (A → Option B) → Option B
none >>= f = none
some a >>= f = f a

-- xs[i] = v;
abbrev pub store : {A : Type 0} → List A → ℕ → A → Option (List A)
store xs i v = if ltb i (length xs) then some (set xs i v) else none

-- The three assignments for action `i`. The third is to a field of a self struct.
unfoldable pub checked_enter_action : ℕ → NetworkAction → Triggers → Option Triggers
checked_enter_action i a t = do
  delays ← store t.action_delay_table i never
  table ← store t.action_table i (some a.self)
  some (record t {
    action_delay_table = delays;
    action_table = table;
    source_ids = t.source_ids ++ (a.self, a.source_id) ∷ [];
  })

unfoldable pub checked_enter_actions : ℕ → List NetworkAction → Triggers → Option Triggers
unfolding checked_enter_action
checked_enter_actions i [] t = some t
checked_enter_actions i (a ∷ as') t = do
  t' ← checked_enter_action i a t
  checked_enter_actions (suc i) as' t'

-- staa_lst[n]->actions[i] = _lf_action_table[k], for each `k` of the list.
unfoldable pub checked_copy_actions :
    List ActionPtr → ℕ → List ℕ → List ActionPtr → Option (List ActionPtr)
checked_copy_actions table i [] out = some out
checked_copy_actions table i (k ∷ ks) out = do
  a ← get_elem? table k
  out' ← store out i a
  checked_copy_actions table (suc i) ks out'

unfoldable pub checked_staa_entry : List ActionPtr → StaaInit → Option Staa
unfolding checked_copy_actions
checked_staa_entry table s = do
  actions ← checked_copy_actions table 0 s.action_indices (replicate s.allocated none)
  some (record { staa = s.staa; num_actions = s.num_actions; actions = actions })

unfoldable pub checked_staa_entries : ℕ → List StaaInit → Triggers → Option Triggers
unfolding checked_staa_entry
checked_staa_entries n [] t = some t
checked_staa_entries n (s ∷ ss) t = do
  entry ← checked_staa_entry t.action_table s
  lst ← store t.staa_lst n (some entry)
  checked_staa_entries (suc n) ss (record t { staa_lst = lst })

unfoldable pub checked_initialize_triggers : Preamble → Triggers → Option Triggers
unfolding checked_enter_actions checked_staa_entries
checked_initialize_triggers p t = do
  t' ← checked_enter_actions 0 p.network_actions t
  checked_staa_entries 0 p.staa_lst t'
